-- ===== src/Threads/Fairness.antt =====
-- The ready list is a queue: a thread on it gets the processor after as many calls of Yield as there
-- are threads in front of it, and one more.
use nach_osx.Prelude.{
  length, Outcome, ok, ◌>>=◌, ℕ, zero, suc, ◌≡◌, refl, ap, ◌∙◌, List, [], ◌∷◌, ◌++◌,
}
use nach_osx.SortedList.{ListElement, new_element, is_empty, link_last, append}
use nach_osx.Threads.{System, yield}
use nach_osx.Threads.Places.{Consistent}
use nach_osx.Threads.Scheduling.{yield_to_next}

-- Calls of Yield one after the other, each by the thread that then runs.
pub yields : ℕ → System → Outcome System
yields zero w = ok w
yields (suc n) w = do w' ← yield w; yields n w'

append-behind :
    (xs : List (ListElement ℕ)) (e : ListElement ℕ) (ys : List (ListElement ℕ)) (x : ℕ)
    → append (xs ++ (e ∷ ys)) x ≡ xs ++ (e ∷ link_last ys (new_element x 0))
unfolding append is_empty link_last
append-behind [] e ys x = refl
append-behind (f ∷ fs) e ys x = ap (λ l. f ∷ l) (linked fs)
  where
    linked :
        (fs : List (ListElement ℕ))
        → link_last (fs ++ (e ∷ ys)) (new_element x 0) ≡ fs ++ (e ∷ link_last ys (new_element x 0))
    linked [] = refl
    linked (g ∷ gs) = ap (λ l. g ∷ l) (linked gs)

-- A thread that is ready behind `xs` runs after length xs + 1 calls of Yield, by whichever threads.
pub yields_reach :
    (xs : List (ListElement ℕ)) (e : ListElement ℕ) (ys : List (ListElement ℕ)) (w : System)
    → Consistent w
    → w.ready_list ≡ xs ++ (e ∷ ys)
    → (w' : System) × (yields (suc (length xs)) w ≡ ok w')
      × Consistent w'
      × (w'.current_thread ≡ e.item)
unfolding yields
yields_reach [] e ys w c list =
    let (w', ends, c', first, _) = yield_to_next w c e ys list in (w', rw ends refl, c', first)
yields_reach (x ∷ xs) e ys w c list =
    let (w₁, ends, c₁, _, list₁) = yield_to_next w c x (xs ++ (e ∷ ys)) list in
    let (w', ends', c', first) =
      yields_reach xs e (link_last ys (new_element w.current_thread 0)) w₁ c₁
        (list₁ ∙ append-behind xs e ys w.current_thread) in
    (w', rw ends ends', c', first)
