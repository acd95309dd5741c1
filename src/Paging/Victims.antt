-- ===== src/Paging/Victims.antt =====
-- The second chance loop ends, and which page it chooses.
use nach_osx.Prelude.{
  append_assoc, length, length-append, ℤ, ok, ℕ, suc, ◌+◌, ◌-◌, ◌<◌, ◌≡◌, refl, sym, ap, ◌∙◌, ◌≢◌,
  ◌⊎◌, inl, inr, Bool, true, false, List, [], ◌∷◌, ◌++◌, arith,
}
use nach_osx.Paging.{second_chance}

abbrev pub marked : List ℤ → List (ℤ × Bool)
marked [] = []
marked (p ∷ ps) = (p, true) ∷ marked ps

abbrev pub unmarked : List ℤ → List (ℤ × Bool)
unmarked [] = []
unmarked (p ∷ ps) = (p, false) ∷ unmarked ps

-- `page` is chosen from `queue`, and `rest` is the queue afterwards.
pub data Chosen (queue : List (ℤ × Bool)) (page : ℤ) (rest : List (ℤ × Bool)) : Type 0 where
  first_unmarked :
      (ps : List ℤ) (zs : List (ℤ × Bool))
      → queue ≡ marked ps ++ ((page, false) ∷ zs)
      → rest ≡ zs ++ (unmarked ps ++ ((page, true) ∷ []))
      → Chosen queue page rest
  all_marked :
      (ps : List ℤ)
      → queue ≡ marked (page ∷ ps)
      → rest ≡ unmarked ps ++ ((page, true) ∷ [])
      → Chosen queue page rest

append_nil : {A : Type 0} (xs : List A) → xs ++ [] ≡ xs
append_nil [] = refl
append_nil (x ∷ xs) = ap (λ l. x ∷ l) (append_nil xs)

-- The rounds over marked pages.
second_chance-marked :
    (ps : List ℤ) (fuel : ℕ) (rest : List (ℤ × Bool))
    → second_chance (length ps + fuel) (marked ps ++ rest)
      ≡ second_chance fuel (rest ++ unmarked ps)
unfolding second_chance
second_chance-marked [] fuel rest =
    let e : 0 + fuel ≡ fuel = omega arith in
    ap (λ n. second_chance n rest) e ∙ ap (second_chance fuel) (sym (append_nil rest))
second_chance-marked (p ∷ ps) fuel rest =
    let e : suc (length ps) + fuel ≡ suc (length ps + fuel) = omega arith in
    ap (λ n. second_chance n ((p, true) ∷ (marked ps ++ rest))) e
    ∙ ap (second_chance (length ps + fuel)) (append_assoc (marked ps) rest ((p, false) ∷ []))
    ∙ second_chance-marked ps fuel (rest ++ ((p, false) ∷ []))
    ∙ ap (second_chance fuel) (append_assoc rest ((p, false) ∷ []) (unmarked ps))

-- A queue is marked up to its first page that is not, or to its end.
abbrev Split : List (ℤ × Bool) → Type 0
Split queue =
    ((ps : List ℤ) × (queue ≡ marked ps))
    ⊎ ((ps : List ℤ) × (page : ℤ) × (zs : List (ℤ × Bool)) × (queue
          ≡ marked ps ++ ((page, false) ∷ zs)))

split : (queue : List (ℤ × Bool)) → Split queue
split [] = inl ([], refl)
split ((p, false) ∷ queue) = inr ([], p, queue, refl)
split ((p, true) ∷ queue) = elim (split queue) [
  | inl (ps, e) ↦ inl (p ∷ ps, ap (λ l. (p, true) ∷ l) e)
  | inr (ps, page, zs, e) ↦ inr (p ∷ ps, page, zs, ap (λ l. (p, true) ∷ l) e)
]

length-marked : (ps : List ℤ) → length (marked ps) ≡ length ps
length-marked [] = refl
length-marked (p ∷ ps) = ap suc (length-marked ps)

module _ (ps : List ℤ) (fuel : ℕ) where
  at_unmarked :
      (page : ℤ) (zs : List (ℤ × Bool))
      → second_chance (length ps + suc fuel) (marked ps ++ ((page, false) ∷ zs))
        ≡ ok (page, zs ++ (unmarked ps ++ ((page, true) ∷ [])))
  unfolding second_chance
  at_unmarked page zs =
      second_chance-marked ps (suc fuel) ((page, false) ∷ zs)
      ∙ ap (λ l. ok (page, l)) (append_assoc zs (unmarked ps) ((page, true) ∷ []))

  at_marked :
      (page : ℤ)
      → second_chance (suc (length ps) + suc fuel) (marked (page ∷ ps))
        ≡ ok (page, unmarked ps ++ ((page, true) ∷ []))
  unfolding second_chance
  at_marked page =
      ap (second_chance (suc (length ps) + suc fuel)) (sym (append_nil (marked (page ∷ ps))))
      ∙ second_chance-marked (page ∷ ps) (suc fuel) []

-- With more rounds than the queue is long the loop ends, on any queue but the empty one: it chooses
-- the first page without a mark, or, if all have one, the first page. The pages in front of it lose
-- their marks and go to the end in their order, and the chosen page behind them, with a mark.
pub second_chance-Chosen :
    (queue : List (ℤ × Bool)) (fuel : ℕ)
    → queue ≢ []
    → length queue < fuel
    → (page : ℤ) × (rest : List (ℤ × Bool)) × (second_chance fuel queue ≡ ok (page, rest))
      × Chosen queue page rest
second_chance-Chosen queue fuel some_page enough = by (split queue)
  where
    by :
        Split queue
        → (page : ℤ) × (rest : List (ℤ × Bool)) × (second_chance fuel queue ≡ ok (page, rest))
          × Chosen queue page rest
    by (inr (ps, page, zs, e)) =
        let n : fuel ≡ length ps + suc (fuel - suc (length ps)) =
          omega (
            arith,
            ap length e,
            length-append (marked ps) ((page, false) ∷ zs),
            length-marked ps,
          ) in
        (
          page,
          zs ++ (unmarked ps ++ ((page, true) ∷ [])),
          ap (second_chance fuel) e
              ∙ ap (λ n. second_chance n (marked ps ++ ((page, false) ∷ zs))) n
              ∙ at_unmarked ps (fuel - suc (length ps)) page zs,
          first_unmarked ps zs e refl,
        )
    by (inl ([], e)) = absurd (some_page e)
    by (inl (page ∷ ps, e)) =
        let n : fuel ≡ suc (length ps) + suc (fuel - suc (suc (length ps))) =
          omega (arith, ap length e, length-marked (page ∷ ps)) in
        (
          page,
          unmarked ps ++ ((page, true) ∷ []),
          ap (second_chance fuel) e
              ∙ ap (λ n. second_chance n (marked (page ∷ ps))) n
              ∙ at_marked ps (fuel - suc (suc (length ps))) page,
          all_marked ps e refl,
        )
