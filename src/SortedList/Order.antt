-- ===== src/SortedList/Order.antt =====
-- The order that SortedInsert keeps, and what goes in comes out.
use nach_osx.SortedList.{
  ListElement, new_element, is_empty, link_last, append, insert_behind, sorted_insert,
  sorted_remove, remove,
}
use nach_osx.Prelude.{
  ltb, if◌then◌else◌, Bool-cases, ℕ, ◌≤◌, ◌≡◌, refl, sym, ap, subst, ◌≢◌, inl, inr, some, List, [],
  ◌∷◌, ◌++◌, arith,
}

module _ {Item : Type 0} where
  abbrev pub FirstFrom : ℕ → List (ListElement Item) → Type 0
  FirstFrom key [] = Unit {0}
  FirstFrom key (e ∷ es) = key ≤ e.key

  -- No element has a smaller key than the one in front of it.
  abbrev pub Sorted : List (ListElement Item) → Type 0
  Sorted [] = Unit {0}
  Sorted (e ∷ es) = FirstFrom e.key es × Sorted es

  -- The elements up to the last one whose key is not above `key`, and those behind it.
  abbrev pub not_above : ℕ → List (ListElement Item) → List (ListElement Item)
  not_above key [] = []
  not_above key (e ∷ es) = let rest = not_above key es in if ltb key e.key then [] else e ∷ rest

  abbrev pub above : ℕ → List (ListElement Item) → List (ListElement Item)
  above key [] = []
  above key (e ∷ es) = let rest = above key es in if ltb key e.key then e ∷ es else rest

  insert_behind_lem :
      (ptr : ListElement Item) (es : List (ListElement Item)) (x : ListElement Item)
      → insert_behind ptr es x ≡ ptr ∷ (not_above x.key es ++ x ∷ above x.key es)
  unfolding insert_behind
  insert_behind_lem ptr [] x = refl
  insert_behind_lem ptr (next ∷ rest) x = elim (Bool-cases (ltb x.key next.key)) [
    | inl smaller ↦ rw smaller
    | inr not_smaller ↦ rw not_smaller (ap (λ l. ptr ∷ l) (insert_behind_lem next rest x))
  ]

  -- SortedInsert puts the element behind the last of those in front whose keys are not above its own,
  -- so behind all that have the same key, and keeps the others in their order.
  pub sorted_insert_lem :
      (list : List (ListElement Item)) (item : Item) (key : ℕ)
      → sorted_insert list item key ≡ not_above key list ++ (new_element item key ∷ above key list)
  unfolding sorted_insert
  sorted_insert_lem [] item key = refl
  sorted_insert_lem (first ∷ rest) item key = elim (Bool-cases (ltb key first.key)) [
    | inl smaller ↦ rw smaller
    | inr not_smaller ↦ rw not_smaller (insert_behind_lem first rest (new_element item key))
  ]

  insert_behind-FirstFrom :
      (key : ℕ) (ptr : ListElement Item) (es : List (ListElement Item)) (x : ListElement Item)
      → key ≤ ptr.key
      → FirstFrom key (insert_behind ptr es x)
  insert_behind-FirstFrom key ptr es x le =
      subst (FirstFrom key) (sym (insert_behind_lem ptr es x)) le

  insert_behind-Sorted :
      (ptr : ListElement Item) (es : List (ListElement Item)) (x : ListElement Item)
      → ptr.key ≤ x.key
      → Sorted (ptr ∷ es)
      → Sorted (insert_behind ptr es x)
  unfolding insert_behind
  insert_behind-Sorted ptr [] x le s = (le, (tt, tt))
  insert_behind-Sorted ptr (next ∷ rest) x le s = elim (Bool-cases (ltb x.key next.key)) [
    | inl smaller ↦ simp smaller (le, (ground arith, s.1))
    | inr not_smaller ↦ simp not_smaller (
      insert_behind-FirstFrom ptr.key next rest x s.0,
      insert_behind-Sorted next rest x (ground arith) s.1,
    )
  ]

  -- SortedInsert keeps a list sorted.
  pub sorted_insert-Sorted :
      (list : List (ListElement Item)) (item : Item) (key : ℕ)
      → Sorted list
      → Sorted (sorted_insert list item key)
  unfolding sorted_insert
  sorted_insert-Sorted [] item key s = (tt, tt)
  sorted_insert-Sorted (first ∷ rest) item key s = elim (Bool-cases (ltb key first.key)) [
    | inl smaller ↦ simp smaller (ground arith, s)
    | inr not_smaller ↦
        simp not_smaller (insert_behind-Sorted first rest (new_element item key) (ground arith) s)
  ]

  -- What SortedRemove takes off a sorted list has the smallest key of all.
  abbrev pub AllFrom : ℕ → List (ListElement Item) → Type 0
  AllFrom key [] = Unit {0}
  AllFrom key (e ∷ es) = (key ≤ e.key) × AllFrom key es

  Sorted-AllFrom :
      (key : ℕ) (es : List (ListElement Item)) → FirstFrom key es → Sorted es → AllFrom key es
  Sorted-AllFrom key [] h s = tt
  Sorted-AllFrom key (e ∷ es) h s = (h, Sorted-AllFrom key es (smaller es s.0) s.1)
    where
      smaller : (es : List (ListElement Item)) → FirstFrom e.key es → FirstFrom key es
      smaller [] p = tt
      smaller (f ∷ fs) p = omega arith

  nonempty :
      (xs : List (ListElement Item)) (x : ListElement Item) (ys : List (ListElement Item))
      → [] ≢ xs ++ (x ∷ ys)
  nonempty [] x ys e = cc
  nonempty (z ∷ zs) x ys e = cc

  -- After a SortedInsert into a sorted list, SortedRemove takes an element whose key is not above any of
  -- those that are left, and leaves a sorted list.
  pub sorted_remove-sorted_insert :
      (list : List (ListElement Item)) (item : Item) (key : ℕ)
      → Sorted list
      → (e : ListElement Item) × (es : List (ListElement Item)) × (sorted_remove
            (sorted_insert list item key)
          ≡ (some e, es))
        × AllFrom e.key es
        × Sorted es
  unfolding sorted_remove
  sorted_remove-sorted_insert list item key s =
      taken (sorted_insert list item key) (sorted_insert_lem list item key)
        (sorted_insert-Sorted list item key s)
    where
      taken :
          (l : List (ListElement Item))
          → l ≡ not_above key list ++ (new_element item key ∷ above key list)
          → Sorted l
          → (e : ListElement Item) × (es : List (ListElement Item)) × (sorted_remove l
              ≡ (some e, es))
            × AllFrom e.key es
            × Sorted es
      taken [] same t = absurd (nonempty (not_above key list) _ _ same)
      taken (e ∷ es) same t = (e, es, refl, Sorted-AllFrom e.key es t.0 t.1, t.1)

  -- Append puts an item behind all others, and Remove takes the first: a queue.
  pub remove-append :
      (first : ListElement Item) (rest : List (ListElement Item)) (item : Item)
      → remove (append (first ∷ rest) item) ≡ (some first.item, rest ++ (new_element item 0 ∷ []))
  unfolding remove append is_empty link_last sorted_remove
  remove-append first rest item = ap (λ l. (some first.item, l)) (linked rest)
    where
      linked :
          (es : List (ListElement Item))
          → link_last es (new_element item 0) ≡ es ++ (new_element item 0 ∷ [])
      linked [] = refl
      linked (e ∷ es) = ap (λ l. e ∷ l) (linked es)
