-- ===== src/Threads/Reachable.antt =====
-- Every interleaving of threads that share one lock and one condition variable.
use nach_osx.Prelude.{
  ◌==◌, if◌then◌else◌, Outcome, ok, ok-injective, ℕ, ◌≡◌, refl, sym, ap, ◌∙◌, subst, inl, inr, true,
  false, none, some, List, [], ◌∷◌, arith,
}
use nach_osx.SortedList.{ListElement}
use nach_osx.Threads.{
  just_created, running, Stage, at_root, outside, acquiring, entered, inside, leaving, waiting,
  reacquiring, System, new_thread, new_lock, new_semaphore, fork, yield, finish, acquire, set_owner,
  release, clear_owner, wait, wait_again, signal, broadcast,
}
use nach_osx.Threads.Places.{holds, asleep, Exclusive, Consistent}
use nach_osx.Threads.Switching.{Dispatched}
use nach_osx.Threads.Scheduling.{yield_to_next, yield_alone, finish_lem, fork_lem, new_thread_lem}
use nach_osx.Threads.Waiting.{Turned, acquire-Consistent}
use nach_osx.Threads.Releasing.{release_lem}
use nach_osx.Threads.Monitor.{
  set_owner_lem, clear_owner_lem, signal_lem, broadcast_lem, wait_lem, wait_again_lem,
}

-- A thread that is not asleep may be made to yield where it turns interrupts on. It takes the lock when
-- it is outside, and leaves it, waits and signals only inside. A thread that woke goes on with its P.
pub data Step (w : System) : System → Type 0 where
  creates : {t : ℕ} → w.threads t ≡ none → Step w (new_thread t w)
  forks : {t : ℕ} {w' : System} → w.threads t ≡ some just_created → fork t w ≡ ok w' → Step w w'
  yields : {w' : System} → asleep (w.stage w.current_thread) ≡ false → yield w ≡ ok w' → Step w w'
  finishes : {w' : System} → w.stage w.current_thread ≡ outside → finish w ≡ ok w' → Step w w'
  acquires : {w' : System} → w.stage w.current_thread ≡ outside → acquire w ≡ ok w' → Step w w'
  acquires_again :
      {w' : System} → w.stage w.current_thread ≡ acquiring → acquire w ≡ ok w' → Step w w'
  owns : w.stage w.current_thread ≡ entered → Step w (set_owner w)
  releases : {w' : System} → w.stage w.current_thread ≡ inside → release w ≡ ok w' → Step w w'
  disowns : w.stage w.current_thread ≡ leaving → Step w (clear_owner w)
  waits : {w' : System} → w.stage w.current_thread ≡ inside → wait w ≡ ok w' → Step w w'
  wakes : {w' : System} → w.stage w.current_thread ≡ waiting → wait_again w ≡ ok w' → Step w w'
  wakes_again :
      {w' : System} → w.stage w.current_thread ≡ reacquiring → wait_again w ≡ ok w' → Step w w'
  signals : {w' : System} → w.stage w.current_thread ≡ inside → signal w ≡ ok w' → Step w w'
  broadcasts : {w' : System} → w.stage w.current_thread ≡ inside → broadcast w ≡ ok w' → Step w w'

-- The thread `main` runs alone, with a new lock.
unfoldable pub start : ℕ → System
unfolding new_lock new_semaphore
start main = record {
  current_thread = main;
  threads = λ t. if main == t then some running else none;
  stage = λ t. if main == t then outside else at_root;
  ready_list = [];
  thread_to_be_destroyed = none;
  lock = new_lock;
  hilos = [];
}

pub data Reachable (main : ℕ) : System → Type 0 where
  started : Reachable main (start main)
  after : {w w' : System} → Reachable main w → Step w w' → Reachable main w'

pub start-Consistent : (main : ℕ) → Consistent (start main)
unfolding start
start-Consistent main = record {
  runs = ground arith;
  alone = λ t h. ground arith;
  places = λ t. record {
    readies = ground arith;
    queued = ground arith;
    waits = ground arith;
    sleeps = λ h. ground arith;
    gone = λ h. ground arith;
    carcass = λ h. ground arith;
  };
  exclusive = inl (refl, λ t. ground arith);
}

Dispatched-Consistent :
    (list : List (ListElement ℕ)) (r : Outcome System) (w' : System)
    → Dispatched list r
    → r ≡ ok w'
    → Consistent w'
Dispatched-Consistent [] r w' d e = cc
Dispatched-Consistent (f ∷ fs) r w' (w₁, e₁, c, _) e =
    subst Consistent (ok-injective (sym e₁ ∙ e)) c

Turned-Consistent :
    (s : Stage) (w : System) (r : Outcome System) (w' : System)
    → Turned s w r
    → r ≡ ok w'
    → Consistent w'
Turned-Consistent s w r w' (inl (_, d)) e = Dispatched-Consistent w.ready_list r w' d e
Turned-Consistent s w r w' (inr (_, w₁, e₁, c, _)) e =
    subst Consistent (ok-injective (sym e₁ ∙ e)) c

ends-Consistent :
    (r : Outcome System) (w' : System)
    → (w₁ : System) × (r ≡ ok w₁) × Consistent w₁
    → r ≡ ok w'
    → Consistent w'
ends-Consistent r w' (w₁, e₁, c) e = subst Consistent (ok-injective (sym e₁ ∙ e)) c

yield-Consistent : (w w' : System) → Consistent w → yield w ≡ ok w' → Consistent w'
yield-Consistent w w' c e = by_list w.ready_list refl
  where
    by_list : (l : List (ListElement ℕ)) → w.ready_list ≡ l → Consistent w'
    by_list [] list = subst Consistent (ok-injective (sym (yield_alone w c list) ∙ e)) c
    by_list (f ∷ fs) list =
        let (w₁, e₁, c₁, _, _) = yield_to_next w c f fs list in
        subst Consistent (ok-injective (sym e₁ ∙ e)) c₁

pub Step-Consistent : {w w' : System} → Consistent w → Step w w' → Consistent w'
Step-Consistent {w} c (creates {t} free) = new_thread_lem w c t free
Step-Consistent {w} {w'} c (forks {t} new e) = ends-Consistent (fork t w) w' (fork_lem w c t new) e
Step-Consistent {w} {w'} c (yields awake e) = yield-Consistent w w' c e
Step-Consistent {w} {w'} c (finishes s e) =
    Dispatched-Consistent w.ready_list (finish w) w' (finish_lem w c (ap holds s)) e
Step-Consistent {w} {w'} c (acquires s e) =
    ends-Consistent (acquire w) w' (acquire-Consistent w c (ap holds s)) e
Step-Consistent {w} {w'} c (acquires_again s e) =
    ends-Consistent (acquire w) w' (acquire-Consistent w c (ap holds s)) e
Step-Consistent {w} c (owns s) = set_owner_lem w c s
Step-Consistent {w} {w'} c (releases s e) =
    ends-Consistent (release w) w' (release_lem w c (ap holds s)) e
Step-Consistent {w} c (disowns s) = clear_owner_lem w c s
Step-Consistent {w} {w'} c (waits s e) =
    let (w₁, _, d) = wait_lem w c s in Dispatched-Consistent w₁.ready_list (wait w) w' d e
Step-Consistent {w} {w'} c (wakes s e) =
    Turned-Consistent inside w (wait_again w) w' (wait_again_lem w c (ap holds s)) e
Step-Consistent {w} {w'} c (wakes_again s e) =
    Turned-Consistent inside w (wait_again w) w' (wait_again_lem w c (ap holds s)) e
Step-Consistent {w} {w'} c (signals s e) = ends-Consistent (signal w) w' (signal_lem w c) e
Step-Consistent {w} {w'} c (broadcasts s e) = ends-Consistent (broadcast w) w' (broadcast_lem w c) e

pub Reachable-Consistent : {main : ℕ} {w : System} → Reachable main w → Consistent w
Reachable-Consistent {main} started = start-Consistent main
Reachable-Consistent (after r s) = Step-Consistent (Reachable-Consistent r) s

-- However the threads interleave, no two of them hold the lock: between the return of P in Acquire
-- and the V of Release there is one thread at most.
pub mutual_exclusion :
    {main : ℕ} {w : System}
    → Reachable main w
    → (t u : ℕ) → holds (w.stage t) ≡ true
    → holds (w.stage u) ≡ true
    → t ≡ u
mutual_exclusion {w = w} r t u p q = by (Reachable-Consistent r).exclusive
  where
    by : Exclusive w → t ≡ u
    by (inl (_, none_holds)) = ground (arith, none_holds t)
    by (inr (_, (h, held, only))) = only t p ∙ sym (only u q)
