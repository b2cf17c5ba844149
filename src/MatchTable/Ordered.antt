-- ===== src/MatchTable/Ordered.antt =====
-- src/lib/match_table.c: where the list of wildcard entries takes a new entry.
use trema.Base.{
  ℕ, suc, ◌≤◌, ◌<◌, ◌≡◌, ◌≢◌, refl, true, false, none, some, List, [], ◌∷◌, ◌==◌, ltb,
  if◌then◌else◌, arith, All,
}
use trema.LinkedList.{append_to_tail, insert_before_next, insert_before, find_from, insert_in_front}
use trema.MatchTable.{MatchEntry}
use trema.MatchTable.Wildcards.{
  is_same_entry, already_exists, at_tail, at_element, find_insert_point, strict_from,
}
use trema.OpenFlow.{Match}

-- no address twice
abbrev pub Distinct : List ℕ → Type 0
Distinct [] = Unit
Distinct (a ∷ xs) = All (λ b. (b == a) ≡ false) xs × Distinct xs

module _ (h : ℕ → MatchEntry) where
  -- entries of at most this priority
  abbrev pub Below : ℕ → List ℕ → Type 0
  Below p = All (λ a. (h a).priority ≤ p)

  -- highest priority first
  abbrev pub Sorted : List ℕ → Type 0
  Sorted [] = Unit
  Sorted (a ∷ xs) = Below (h a).priority xs × Sorted xs

  -- `a` behind all entries of its priority `p` or more
  unfoldable pub place : ℕ → ℕ → List ℕ → List ℕ
  place p a [] = a ∷ []
  place p a (b ∷ xs) = if ltb (h b).priority p then a ∷ b ∷ xs else b ∷ place p a xs

  find_from-low :
      (q : ℕ) (xs : List ℕ) (m : Match) (p : ℕ)
      → Below q xs
      → q < p
      → find_from (λ a. is_same_entry (h a) m p) xs ≡ none
  unfolding find_from is_same_entry
  find_from-low q [] m p low lt = refl
  find_from-low q (a ∷ xs) m p low lt = ground (arith, find_from-low q xs m p low.1 lt, low.0)

  -- The loop that stops at a lower priority finds what a search of the whole list would.
  pub strict_from-find :
      (xs : List ℕ) (m : Match) (p : ℕ)
      → Sorted xs
      → strict_from h xs m p ≡ find_from (λ a. is_same_entry (h a) m p) xs
  unfolding strict_from find_from
  strict_from-find [] m p sorted = refl
  strict_from-find (a ∷ xs) m p sorted = ground (
    arith,
    strict_from-find xs m p sorted.1,
    find_from-low (h a).priority (a ∷ xs) m p (omega arith, sorted.0),
  )

  pub insert_point-exists :
      (n : ℕ) (xs : List ℕ) (m : Match) (p : ℕ) (a : ℕ)
      → strict_from h xs m p ≡ some a
      → find_insert_point h n xs m p ≡ already_exists
  unfolding strict_from find_insert_point
  insert_point-exists n [] m p a e = ground arith
  insert_point-exists n (b ∷ xs) m p a e = ground (arith, insert_point-exists (suc n) xs m p a)

  pub insert_point-new :
      (n : ℕ) (xs : List ℕ) (m : Match) (p : ℕ)
      → strict_from h xs m p ≡ none
      → find_insert_point h n xs m p ≢ already_exists
  unfolding strict_from find_insert_point
  insert_point-new n [] m p e = ground arith
  insert_point-new n (b ∷ xs) m p e = ground (arith, insert_point-new (suc n) xs m p)

  pub tail-place :
      (n : ℕ) (xs : List ℕ) (m : Match) (p a : ℕ)
      → find_insert_point h n xs m p ≡ at_tail
      → append_to_tail xs a ≡ place p a xs
  unfolding find_insert_point append_to_tail place
  tail-place n [] m p a e = refl
  tail-place n (b ∷ xs) m p a e = ground (arith, tail-place (suc n) xs m p a)

  point-position :
      (n : ℕ) (xs : List ℕ) (m : Match) (p i b : ℕ)
      → find_insert_point h n xs m p ≡ at_element i b
      → n ≤ i
  unfolding find_insert_point
  point-position n [] m p i b e = ground arith
  point-position n (c ∷ xs) m p i b e = ground (arith, point-position (suc n) xs m p i b)

  pub head-place :
      (xs : List ℕ) (m : Match) (p a b : ℕ)
      → find_insert_point h 0 xs m p ≡ at_element 0 b
      → insert_in_front xs a ≡ place p a xs
  unfolding find_insert_point insert_in_front place
  head-place [] m p a b e = ground arith
  head-place (c ∷ xs) m p a b e = ground (arith, point-position 1 xs m p 0 b)

  -- A different entry than the first stands where the loop stops.
  point-differs :
      (n : ℕ) (xs : List ℕ) (m : Match) (p i b c : ℕ)
      → find_insert_point h n xs m p ≡ at_element i b
      → All (λ d. (d == c) ≡ false) xs
      → (c == b) ≡ false
  unfolding find_insert_point
  point-differs n [] m p i b c e out = ground arith
  point-differs n (d ∷ xs) m p i b c e out =
      ground (arith, point-differs (suc n) xs m p i b c, out.0)

  next-place :
      (n : ℕ) (xs : List ℕ) (m : Match) (p a i b : ℕ)
      → Distinct xs
      → find_insert_point h n xs m p ≡ at_element i b
      → insert_before_next (λ x y. x == y) xs b a ≡ (true, place p a xs)
  unfolding find_insert_point insert_before_next place
  next-place n [] m p a i b d e = ground arith
  next-place n (c ∷ xs) m p a i b d e =
      ground (arith, next-place (suc n) xs m p a i b d.1, point-differs (suc n) xs m p i b c)

  pub before-place :
      (xs : List ℕ) (m : Match) (p a i b : ℕ)
      → Distinct xs
      → find_insert_point h 0 xs m p ≡ at_element (suc i) b
      → insert_before (λ x y. x == y) xs b a ≡ some (true, place p a xs)
  unfolding find_insert_point insert_before place
  before-place [] m p a i b d e = ground arith
  before-place (c ∷ xs) m p a i b d e = ground (arith, next-place 1 xs m p a (suc i) b d.1)
