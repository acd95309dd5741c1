-- ===== src/Examples/Queues.antt =====
-- Two two_events events and a third at the time of the first.
use nach_osx.Prelude.{ℕ, ◌≡◌, refl, List, [], ◌∷◌}
use nach_osx.SortedList.{ListElement, new_element, sorted_insert}

abbrev two_events : List (ListElement ℕ)
two_events = new_element 1 10 ∷ new_element 2 20 ∷ []

behind_its_equals :
    sorted_insert two_events 3 10 ≡ new_element 1 10 ∷ new_element 3 10 ∷ new_element 2 20 ∷ []
unfolding sorted_insert
behind_its_equals = refl
