-- ===== src/LinkedList/Laws.antt =====
-- src/lib/linked_list.c against plain lists.
use trema.Base.{Bool, true, false, some, List, [], ◌∷◌, ◌++◌, ◌≡◌, refl, ap, All}
use trema.LinkedList.{
  insert_before_next, insert_before, append_to_tail, delete_next, delete_element,
}

module _ {ℓ} {A : Type ℓ} where
  pub append_to_tail-append : (xs : List A) (d : A) → append_to_tail xs d ≡ xs ++ d ∷ []
  unfolding append_to_tail
  append_to_tail-append [] d = refl
  append_to_tail-append (x ∷ xs) d = ap (λ l. x ∷ l) (append_to_tail-append xs d)

  module _ (same : A → A → Bool) where
    -- No item of the list is the same as `d`.
    abbrev pub Absent : A → List A → Type 0
    Absent d = All (λ x. same x d ≡ false)

    insert_before_next-found :
        (pre : List A) (s d : A) (post : List A)
        → Absent s pre
        → same s s ≡ true
        → insert_before_next same (pre ++ s ∷ post) s d ≡ (true, pre ++ d ∷ s ∷ post)
    unfolding insert_before_next
    insert_before_next-found [] s d post out self = rw self
    insert_before_next-found (x ∷ pre) s d post out self =
        rw (out.0, insert_before_next-found pre s d post out.1 self)

    insert_before_next-Absent :
        (xs : List A) (s d : A) → Absent s xs → insert_before_next same xs s d ≡ (false, xs)
    unfolding insert_before_next
    insert_before_next-Absent [] s d out = refl
    insert_before_next-Absent (x ∷ xs) s d out = rw (out.0, insert_before_next-Absent xs s d out.1)

    -- In a list with an element behind the head that holds `sibling`, `insert_before` puts the new
    -- element directly before the first such element.
    pub insert_before-found :
        (x : A) (pre : List A) (s d : A) (post : List A)
        → Absent s pre
        → same s s ≡ true
        → insert_before same (x ∷ (pre ++ s ∷ post)) s d ≡ some (true, x ∷ (pre ++ d ∷ s ∷ post))
    unfolding insert_before
    insert_before-found x pre s d post out self =
        rw (insert_before_next-found pre s d post out self)

    pub insert_before-Absent :
        (x : A) (xs : List A) (s d : A)
        → Absent s xs
        → insert_before same (x ∷ xs) s d ≡ some (false, x ∷ xs)
    unfolding insert_before
    insert_before-Absent x xs s d out = rw (insert_before_next-Absent xs s d out)

    delete_next-found :
        (pre : List A) (d : A) (post : List A)
        → Absent d pre
        → same d d ≡ true
        → delete_next same (pre ++ d ∷ post) d ≡ (true, pre ++ post)
    unfolding delete_next
    delete_next-found [] d post out self = rw self
    delete_next-found (x ∷ pre) d post out self =
        rw (out.0, delete_next-found pre d post out.1 self)

    delete_next-Absent : (xs : List A) (d : A) → Absent d xs → delete_next same xs d ≡ (false, xs)
    unfolding delete_next
    delete_next-Absent [] d out = refl
    delete_next-Absent (x ∷ xs) d out = rw (out.0, delete_next-Absent xs d out.1)

    pub delete_element-next :
        (x : A) (xs : List A) (d : A)
        → delete_element same (x ∷ xs) d ≡ some (delete_next same (x ∷ xs) d)
    unfolding delete_element
    delete_element-next x xs d = refl

    -- In a list with an element that holds the data, `delete_element` removes the first such
    -- element, and no other.
    pub delete_element-found :
        (pre : List A) (d : A) (post : List A)
        → Absent d pre
        → same d d ≡ true
        → delete_element same (pre ++ d ∷ post) d ≡ some (true, pre ++ post)
    delete_element-found [] d post out self =
        rw delete_element-next (ap some (delete_next-found [] d post out self))
    delete_element-found (x ∷ pre) d post out self =
        rw delete_element-next (ap some (delete_next-found (x ∷ pre) d post out self))

    -- When no element holds the data, a list with an element is returned unchanged.
    pub delete_element-Absent :
        (x : A) (xs : List A) (d : A)
        → Absent d (x ∷ xs)
        → delete_element same (x ∷ xs) d ≡ some (false, x ∷ xs)
    delete_element-Absent x xs d out =
        rw delete_element-next (ap some (delete_next-Absent (x ∷ xs) d out))
