-- ===== src/Examples/Monitors.antt =====
-- Two threads and a lock.
use nach_osx.Prelude.{false, Outcome, ok, ℕ, ◌≡◌, refl, []}
use nach_osx.SortedList.{ListElement, is_empty, link_last, append, remove, sorted_remove}
use nach_osx.Threads.{
  inside, System, set_status, ready_to_run, find_next_to_run, after_switch, run, yield_to, yield,
  new_semaphore, p_turn, new_lock, acquire, set_owner, new_thread, fork, clear_owner,
  is_held_by_current_thread, same_thread, sleep, dispatch, delete_thread, v, release,
}
use nach_osx.Threads.Places.{Consistent}
use nach_osx.Threads.Reachable.{
  creates, forks, yields, acquires, owns, start, Reachable, started, after, Reachable-Consistent,
  mutual_exclusion,
}
use nach_osx.Threads.Fairness
use nach_osx.Threads.Fairness.{yields_reach}

abbrev result : Outcome System → System → System
result (ok w) d = w
result _ d = d

abbrev element : ℕ → ListElement ℕ
element t = record { key = 0; item = t }

unfoldable two_threads : System
unfolding start new_lock new_semaphore new_thread fork ready_to_run set_status append is_empty
two_threads = let one_made = new_thread 1 (start 0) in result (fork 1 one_made) one_made

two_threads-Reachable : Reachable 0 two_threads
unfolding two_threads start new_lock new_semaphore new_thread fork ready_to_run set_status append
    is_empty
two_threads-Reachable = after (after started (creates {t = 1} refl)) (forks {t = 1} refl refl)

-- Thread 0 has the lock, and thread 1 is the running one.
unfoldable locked : System
unfolding two_threads start new_lock new_semaphore new_thread fork ready_to_run set_status append
    is_empty acquire p_turn set_owner yield yield_to find_next_to_run remove sorted_remove run
    after_switch link_last
locked = let w = set_owner (result (acquire two_threads) two_threads) in result (yield w) w

locked-Reachable : Reachable 0 locked
unfolding locked two_threads start new_lock new_semaphore new_thread fork ready_to_run set_status
    append is_empty acquire p_turn set_owner yield yield_to find_next_to_run remove sorted_remove
    run after_switch link_last
locked-Reachable =
    after (after (after two_threads-Reachable (acquires refl refl)) (owns refl)) (yields refl refl)

Reachable-Consistent_example : Consistent locked
Reachable-Consistent_example = Reachable-Consistent locked-Reachable

mutual_exclusion_example : ◌≡◌ {A = ℕ} 0 0
unfolding locked two_threads start new_lock new_semaphore new_thread fork ready_to_run set_status
    append is_empty acquire p_turn set_owner yield yield_to find_next_to_run remove sorted_remove
    run after_switch link_last
mutual_exclusion_example = mutual_exclusion locked-Reachable 0 0 refl refl

yields_reach_example :
    (w' : System) × (Fairness.yields 1 two_threads ≡ ok w')
    × Consistent w'
    × (w'.current_thread ≡ 1)
unfolding two_threads start new_lock new_semaphore new_thread fork ready_to_run set_status append
    is_empty
yields_reach_example =
    yields_reach [] (element 1) [] two_threads (Reachable-Consistent two_threads-Reachable) refl

-- Thread 0 makes V, loses the processor before the assignments of Release, and makes them after thread 1
-- has acquired the lock: thread 1 is then inside, and the lock says that it is not its owner.
unfoldable owner_lost : System
unfolding locked acquire release v yield
owner_lost =
    let w₁ = result (acquire locked) locked in
    let w₂ = result (release w₁) w₁ in
    let w₃ = result (yield w₂) w₂ in
    let w₄ = set_owner (result (acquire w₃) w₃) in
    let w₅ = clear_owner (result (yield w₄) w₄) in result (yield w₅) w₅

owner_is_lost :
    (owner_lost.current_thread ≡ 1)
    × (owner_lost.stage 1 ≡ inside)
    × (is_held_by_current_thread owner_lost ≡ false)
unfolding owner_lost locked two_threads start new_lock new_semaphore new_thread fork ready_to_run
    set_status append is_empty acquire p_turn set_owner yield yield_to find_next_to_run remove
    sorted_remove run after_switch link_last release v clear_owner is_held_by_current_thread
    same_thread sleep dispatch delete_thread
owner_is_lost = (refl, refl, refl)
