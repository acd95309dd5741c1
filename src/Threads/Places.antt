-- ===== src/Threads/Places.antt =====
-- Where a thread is: each runs, is on one queue, or has ended.
use nach_osx.Prelude.{
  ◌==◌, ℕ, ◌+◌, ◌≡◌, ◌≢◌, ◌⊎◌, Bool, true, false, Option, none, some, List, [], ◌∷◌, arith,
}
use nach_osx.SortedList.{ListElement, is_empty, link_last, append}
use nach_osx.Threads.{
  ThreadStatus, just_created, running, ready, blocked, Stage, acquiring, entered, inside, waiting,
  reacquiring, finished, System,
}

abbrev pub one : Bool → ℕ
one true = 1
one false = 0

-- How often thread `t` is on a queue.
abbrev pub count : ℕ → List (ListElement ℕ) → ℕ
count t [] = 0
count t (e ∷ es) = one (e.item == t) + count t es

abbrev pub in_ready : Option ThreadStatus → ℕ
in_ready (some ready) = 1
in_ready _ = 0

abbrev pub in_queue : Option ThreadStatus → Stage → ℕ
in_queue (some blocked) acquiring = 1
in_queue (some blocked) reacquiring = 1
in_queue _ _ = 0

abbrev pub in_hilos : Option ThreadStatus → Stage → ℕ
in_hilos (some blocked) waiting = 1
in_hilos _ _ = 0

-- The stages at which a thread sleeps.
abbrev pub asleep : Stage → Bool
asleep acquiring = true
asleep waiting = true
asleep reacquiring = true
asleep finished = true
asleep _ = false

-- Between the P of Acquire that returned and the V of Release.
abbrev pub holds : Stage → Bool
holds entered = true
holds inside = true
holds _ = false

-- No thread, or one that Fork has not been called for.
abbrev pub unstarted : Option ThreadStatus → Bool
unstarted none = true
unstarted (some just_created) = true
unstarted _ = false

-- `n` counts thread `t` where it has just been taken off the ready list.
pub record At (w : System) (t : ℕ) (n : ℕ) : Type 0 where
  pub readies : count t w.ready_list + n ≡ in_ready (w.threads t)
  pub queued : count t w.lock.sem.queue ≡ in_queue (w.threads t) (w.stage t)
  pub waits : count t w.hilos ≡ in_hilos (w.threads t) (w.stage t)
  pub sleeps : w.threads t ≡ some blocked → asleep (w.stage t) ≡ true
  pub gone : unstarted (w.threads t) ≡ true → holds (w.stage t) ≡ false
  pub carcass :
      w.thread_to_be_destroyed ≡ some t → (w.threads t ≡ some blocked) × (w.stage t ≡ finished)

-- The lock's semaphore is 1 and no thread holds the lock, or it is 0 and just one does.
abbrev pub Exclusive : System → Type 0
Exclusive w =
    ((w.lock.sem.value ≡ 1) × ((t : ℕ) → holds (w.stage t) ≡ false))
    ⊎ ((w.lock.sem.value ≡ 0)
        × ((h : ℕ) × (holds (w.stage h) ≡ true) × ((t : ℕ) → holds (w.stage t) ≡ true → t ≡ h)))

pub record Consistent (w : System) : Type 0 where
  pub runs : w.threads w.current_thread ≡ some running
  pub alone : (t : ℕ) → w.threads t ≡ some running → t ≡ w.current_thread
  pub places : (t : ℕ) → At w t 0
  pub exclusive : Exclusive w

-- While the processor changes hands: `next` is off the ready list, and no thread runs.
pub record Between (w : System) (next : ℕ) : Type 0 where
  pub nobody : (t : ℕ) → w.threads t ≢ some running
  pub places : (t : ℕ) → At w t (one (next == t))
  pub exclusive : Exclusive w

pub count-append :
    (t : ℕ) (es : List (ListElement ℕ)) (x : ℕ) → count t (append es x) ≡ count t es + one (x == t)
unfolding append is_empty link_last
count-append t [] x = omega arith
count-append t (e ∷ es) x = omega (arith, linked es)
  where
    linked :
        (es : List (ListElement ℕ))
        → count t (link_last es (record { key = 0; item = x })) ≡ count t es + one (x == t)
    linked [] = omega arith
    linked (f ∷ fs) = omega (arith, linked fs)
