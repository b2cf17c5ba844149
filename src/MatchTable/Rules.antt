-- ===== src/MatchTable/Rules.antt =====
-- src/lib/match_table.c: what a change of the list or of the entries does to the order of the
-- wildcard entries and to a search for one of them.
use trema.Base.{
  ℕ, ◌≤◌, ◌≡◌, ◌∙◌, refl, Bool, true, false, none, some, List, [], ◌∷◌, ◌==◌, if◌then◌else◌, arith,
  All, ==_symm,
}
use trema.LinkedList.{find_from, delete_next}
use trema.Match.Strict.{match_key}
use trema.MatchTable.{MatchEntry}
use trema.MatchTable.Ordered.{Distinct, Below, Sorted, place}
use trema.MatchTable.Wildcards.{is_same_entry}
use trema.OpenFlow.{Match}
use trema.TableKey.{compare_congr_right}

pub All-map {ℓ κ ι} :
    {A : Type ℓ} {P : A → Type κ} {Q : A → Type ι} (xs : List A)
    → ((x : A) → P x → Q x)
    → All P xs
    → All Q xs
All-map [] f h = tt
All-map (x ∷ xs) f h = (f x h.0, All-map xs f h.1)

module _ (h : ℕ → MatchEntry) where
  pub All-place {κ} :
      (P : ℕ → Type κ) (p a : ℕ) (xs : List ℕ) → P a → All P xs → All P (place h p a xs)
  unfolding place
  All-place P p a [] pa all = (pa, tt)
  All-place P p a (b ∷ xs) pa all = ground (arith, All-place P p a xs pa all.1, pa, all)

  pub find-place-new :
      (f : ℕ → Bool) (p a : ℕ) (xs : List ℕ)
      → find_from f xs ≡ none
      → find_from f (place h p a xs) ≡ (if f a then some a else none)
  unfolding place find_from
  find-place-new f p a [] e = refl
  find-place-new f p a (b ∷ xs) e = ground (arith, find-place-new f p a xs)

  pub find-place-other :
      (f : ℕ → Bool) (p a : ℕ) (xs : List ℕ)
      → f a ≡ false
      → find_from f (place h p a xs) ≡ find_from f xs
  unfolding place find_from
  find-place-other f p a [] e = ground arith
  find-place-other f p a (b ∷ xs) e = ground (arith, find-place-other f p a xs)

  pub Distinct-place :
      (p a : ℕ) (xs : List ℕ)
      → Distinct xs
      → All (λ b. (b == a) ≡ false) xs
      → Distinct (place h p a xs)
  unfolding place
  Distinct-place p a [] d out = (tt, tt)
  Distinct-place p a (b ∷ xs) d out = ground (
    arith,
    Distinct-place p a xs d.1 out.1,
    All-place (λ c. (c == b) ≡ false) p a xs,
    ==_symm a b,
    d,
    out,
  )

  Below-place :
      (p q a : ℕ) (xs : List ℕ) → (h a).priority ≤ q → Below h q xs → Below h q (place h p a xs)
  Below-place p q a xs = All-place (λ c. (h c).priority ≤ q) p a xs

  Below-weaken : (p q : ℕ) (xs : List ℕ) → p ≤ q → Below h p xs → Below h q xs
  Below-weaken p q xs le = All-map xs (λ x l. omega arith)

  pub Sorted-place : (a : ℕ) (xs : List ℕ) → Sorted h xs → Sorted h (place h (h a).priority a xs)
  unfolding place
  Sorted-place a [] s = (tt, tt)
  Sorted-place a (b ∷ xs) s = ground (
    arith,
    Sorted-place a xs s.1,
    Below-place (h a).priority (h b).priority a xs,
    Below-weaken (h b).priority (h a).priority xs,
    s,
  )

  -- no entry with the priority of another one and a strictly equal match
  abbrev pub Unique : List ℕ → Type 0
  Unique [] = Unit
  Unique (a ∷ xs) = All (λ b. is_same_entry (h b) (h a).match (h a).priority ≡ false) xs × Unique xs

  abbrev pub is_rule : Match → ℕ → ℕ → Bool
  is_rule m p a = is_same_entry (h a) m p

pub same_entry_congr :
    (e f : MatchEntry) (m : Match) (p : ℕ)
    → is_same_entry f m p ≡ true
    → is_same_entry e m p ≡ is_same_entry e f.match f.priority
unfolding is_same_entry
same_entry_congr e f m p h = ground (arith, compare_congr_right e.match f.match m)

-- `delete_element` of the address `a`
abbrev pub without : ℕ → List ℕ → List ℕ
without a xs = (delete_next (λ x y. x == y) xs a).1

pub All-without {κ} : (P : ℕ → Type κ) (a : ℕ) (xs : List ℕ) → All P xs → All P (without a xs)
unfolding delete_next
All-without P a [] all = tt
All-without P a (b ∷ xs) all = ground (arith, All-without P a xs all.1, all)

pub Distinct-without : (a : ℕ) (xs : List ℕ) → Distinct xs → Distinct (without a xs)
unfolding delete_next
Distinct-without a [] d = tt
Distinct-without a (b ∷ xs) d =
    ground (arith, Distinct-without a xs d.1, All-without (λ c. (c == b) ≡ false) a xs, d)

pub find-without :
    (f : ℕ → Bool) (a : ℕ) (xs : List ℕ) → f a ≡ false → find_from f (without a xs) ≡ find_from f xs
unfolding delete_next find_from
find-without f a [] e = refl
find-without f a (b ∷ xs) e = ground (arith, find-without f a xs)

-- what a search finds passes its test and stands in the list
pub find-true : (f : ℕ → Bool) (xs : List ℕ) (a : ℕ) → find_from f xs ≡ some a → f a ≡ true
unfolding find_from
find-true f [] a e = ground arith
find-true f (b ∷ xs) a e = ground (arith, find-true f xs a)

pub find-All {κ} :
    (P : ℕ → Type κ) (f : ℕ → Bool) (xs : List ℕ) (a : ℕ) → All P xs → find_from f xs ≡ some a → P a
unfolding find_from
find-All P f [] a all e = ground arith
find-All P f (b ∷ xs) a all e = ground (arith, find-All P f xs a all.1, all.0)

pub find-congr :
    (f g : ℕ → Bool) (xs : List ℕ) → All (λ a. f a ≡ g a) xs → find_from f xs ≡ find_from g xs
unfolding find_from
find-congr f g [] all = refl
find-congr f g (a ∷ xs) all = ground (arith, find-congr f g xs all.1, all.0)

pub find-none : (f : ℕ → Bool) (xs : List ℕ) → All (λ a. f a ≡ false) xs → find_from f xs ≡ none
unfolding find_from
find-none f [] all = refl
find-none f (a ∷ xs) all = ground (arith, find-none f xs all.1, all.0)

pub find-none-All : (f : ℕ → Bool) (xs : List ℕ) → find_from f xs ≡ none → All (λ a. f a ≡ false) xs
unfolding find_from
find-none-All f [] e = tt
find-none-All f (a ∷ xs) e = ground (arith, find-none-All f xs)

module _ (h : ℕ → MatchEntry) where
  pub Sorted-without : (a : ℕ) (xs : List ℕ) → Sorted h xs → Sorted h (without a xs)
  unfolding delete_next
  Sorted-without a [] s = tt
  Sorted-without a (b ∷ xs) s =
      ground
        (arith, Sorted-without a xs s.1, All-without (λ c. (h c).priority ≤ (h b).priority) a xs, s)

  pub Unique-without : (a : ℕ) (xs : List ℕ) → Unique h xs → Unique h (without a xs)
  unfolding delete_next
  Unique-without a [] u = tt
  Unique-without a (b ∷ xs) u = ground (
    arith,
    Unique-without a xs u.1,
    All-without (λ c. is_same_entry (h c) (h b).match (h b).priority ≡ false) a xs,
    u,
  )

  -- The entry that a search finds is the only one.
  pub find-without-only :
      (m : Match) (p : ℕ) (a : ℕ) (xs : List ℕ)
      → Unique h xs
      → find_from (is_rule h m p) xs ≡ some a
      → find_from (is_rule h m p) (without a xs) ≡ none
  unfolding delete_next find_from
  find-without-only m p a [] u e = refl
  find-without-only m p a (b ∷ xs) u e = ground (
    arith,
    find-without-only m p a xs u.1,
    find-true (is_rule h m p) xs a,
    λ (t : is_rule h m p b ≡ true).
        find-none (is_rule h m p) xs
          (All-map xs (λ c n. same_entry_congr (h c) (h b) m p t ∙ n) u.0),
  )

  -- A new entry that no search finds keeps the entries apart.
  same_entry_symm :
      (e f : MatchEntry) → is_same_entry e f.match f.priority ≡ is_same_entry f e.match e.priority
  unfolding is_same_entry
  same_entry_symm e f = ground (arith, match_key.compare_symm e.match f.match)

  pub Unique-place :
      (a : ℕ) (xs : List ℕ)
      → Unique h xs
      → All (λ b. is_same_entry (h b) (h a).match (h a).priority ≡ false) xs
      → Unique h (place h (h a).priority a xs)
  unfolding place
  Unique-place a [] u out = (tt, tt)
  Unique-place a (b ∷ xs) u out = ground (
    arith,
    Unique-place a xs u.1 out.1,
    All-place h (λ c. is_same_entry (h c) (h b).match (h b).priority ≡ false) (h a).priority a xs,
    same_entry_symm (h a) (h b),
    u,
    out,
  )
