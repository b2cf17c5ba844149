-- ===== src/Base/Pigeonhole.antt =====
-- A run of consecutive values of a 32-bit counter that all stand in a list is no longer than it.
use Prim.Native.Nat.{ℕ, zero, suc, ◌+◌, ◌%◌, ◌^◌, ◌≤◌, ◌<◌}
use mathlib.Core.Path.{◌≡◌}
use mathlib.Core.Logic.{◌≢◌}
use mathlib.Core.Bool.{Bool, true, false, ◌||◌}
use mathlib.Core.List.{List, [], ◌∷◌}
use native.Mathlib.Omega.{arith}
use trema.Base.Lists.{length}
use trema.Base.Tests.{◌==◌, if◌then◌else◌}

unfoldable pub contains : ℕ → List ℕ → Bool
contains x [] = false
contains x (y ∷ ys) = (y == x) || contains x ys

drop_first : ℕ → List ℕ → List ℕ
drop_first x [] = []
drop_first x (y ∷ ys) = if y == x then ys else y ∷ drop_first x ys

length-drop_first :
    (x : ℕ) (ys : List ℕ) → contains x ys ≡ true → length ys ≡ length (drop_first x ys) + 1
unfolding contains drop_first
length-drop_first x [] h = ground arith
length-drop_first x (y ∷ ys) h = ground (arith, length-drop_first x ys)

contains-drop_first :
    (x z : ℕ) (ys : List ℕ) → z ≢ x → contains z ys ≡ true → contains z (drop_first x ys) ≡ true
unfolding contains drop_first
contains-drop_first x z [] ne h = h
contains-drop_first x z (y ∷ ys) ne h = ground (arith, contains-drop_first x z ys)

pub run-le-length :
    (n start : ℕ) (ys : List ℕ)
    → n ≤ 2 ^ 32
    → ((j : ℕ) → j < n → contains ((start + j) % 2 ^ 32) ys ≡ true)
    → n ≤ length ys
run-le-length zero start ys small all = omega arith
run-le-length (suc n) start ys small all =
    let x = (start + n) % 2 ^ 32 in
    omega (
      arith,
      length-drop_first x ys (all n (omega arith)),
      run-le-length n start (drop_first x ys) (omega arith) (λ j h.
          contains-drop_first x ((start + j) % 2 ^ 32) ys (omega arith) (all j (omega arith))),
    )
