-- ===== src/Threads/Waiting.antt =====
-- Semaphore::P keeps every thread in its place, and lets one thread through.
use nach_osx.Prelude.{
  ◌==◌, Outcome, ok, ℕ, ◌≡◌, refl, ap, ◌⊎◌, inl, inr, true, false, Option, none, some, List, [],
  ◌∷◌, arith,
}
use nach_osx.SortedList.{ListElement, append}
use nach_osx.Threads.{
  ThreadStatus, just_created, running, ready, blocked, Stage, acquiring, entered, reacquiring,
  System, put, at_stage, with_sem, p_turn, acquire,
}
use nach_osx.Threads.Places.{count, holds, Exclusive, Consistent, Between, count-append}
use nach_osx.Threads.Switching.{Exclusive-same, Dispatched, parked, sleep_lem}

-- What a turn of P does: with the semaphore at 0 the next thread runs.
abbrev pub Turned : Stage → System → Outcome System → Type 0
Turned through w r =
    ((w.lock.sem.value ≡ 0) × Dispatched w.ready_list r)
    ⊎ ((w.lock.sem.value ≡ 1)
        × (w' : System) × (r ≡ ok w')
        × Consistent w'
        × (w'.stage w.current_thread ≡ through))

module _ (w : System) (c : Consistent w) where
  -- The state in which the thread has queued up for the semaphore.
  abbrev queued_up : Stage → System
  queued_up s =
      at_stage s
        (with_sem (record w.lock.sem { queue = append w.lock.sem.queue w.current_thread }) w)

  queueing :
      (s : Stage)
      → (s ≡ acquiring) ⊎ (s ≡ reacquiring)
      → holds (w.stage w.current_thread) ≡ false
      → (e : ListElement ℕ) (es : List (ListElement ℕ)) → w.ready_list ≡ e ∷ es
      → Between (parked (queued_up s) es) e.item
  queueing s which free e es list = record {
    nobody = λ t h. ground (arith, c.alone t);
    places = λ t.
        let a = c.places t in
        record {
          readies = ground (arith, a.readies, c.runs, ap (count t) list);
          queued =
              ground
                (arith, a.queued, c.runs, count-append t w.lock.sem.queue w.current_thread, which);
          waits = ground (arith, a.waits, c.runs, which);
          sleeps = λ h. ground (arith, a.sleeps, c.runs, which);
          gone = λ h. ground (arith, a.gone, c.runs, which);
          carcass = λ h. ground (arith, a.carcass, c.runs);
        };
    exclusive = Exclusive-same w (queued_up s) refl (λ t. ground (arith, which)) c.exclusive;
  }

  taking :
      (s : Stage)
      → holds s ≡ true
      → w.lock.sem.value ≡ 1
      → Consistent (at_stage s (with_sem (record w.lock.sem { value = 0 }) w))
  taking s held one_left = record {
    runs = c.runs;
    alone = c.alone;
    places = λ t.
        let a = c.places t in
        record {
          readies = a.readies;
          queued = ground (arith, a.queued, c.runs);
          waits = ground (arith, a.waits, c.runs);
          sleeps = λ h. ground (arith, a.sleeps, c.runs);
          gone = λ h. ground (arith, a.gone, c.runs);
          carcass = λ h. ground (arith, a.carcass, c.runs);
        };
    exclusive = inr (refl, (w.current_thread, ground arith, λ t h. only t h c.exclusive));
  }
    where
      only :
          (t : ℕ)
          → holds (put w.stage w.current_thread s t) ≡ true
          → Exclusive w
          → t ≡ w.current_thread
      only t h (inl (_, none_holds)) = ground (arith, none_holds t)
      only t h (inr (taken, _)) = ground arith

  pub p_turn_lem :
      (s through : Stage)
      → (s ≡ acquiring) ⊎ (s ≡ reacquiring)
      → holds through ≡ true
      → holds (w.stage w.current_thread) ≡ false
      → Turned through w (p_turn s through w)
  unfolding p_turn
  p_turn_lem s through which held free = by_value c.exclusive
    where
      by_value : Exclusive w → Turned through w (p_turn s through w)
      by_value (inl (one_left, _)) = inr (
        one_left,
        at_stage through (with_sem (record w.lock.sem { value = 0 }) w),
        rw one_left refl,
        taking through held one_left,
        ground arith,
      )
      by_value (inr (taken, _)) =
          let test : (w.lock.sem.value == 0) ≡ true = ground arith in
          inl (
            taken,
            rw test (
                sleep_lem (queued_up s) w.ready_list refl c.runs
                  (λ e es list. queueing s which free e es list)),
          )

  -- The thread at the front of the semaphore's queue.
  pub front_blocked :
      (e : ListElement ℕ) (es : List (ListElement ℕ))
      → w.lock.sem.queue ≡ e ∷ es
      → w.threads e.item ≡ some blocked
  front_blocked e es list = ground (arith, (c.places e.item).queued, ap (count e.item) list)

  -- The holder of the lock is ready, where another thread finds it taken.
  holder_ready :
      w.lock.sem.value ≡ 0
      → holds (w.stage w.current_thread) ≡ false
      → (h : ℕ) × (w.threads h ≡ some ready)
  holder_ready taken free = by c.exclusive
    where
      by : Exclusive w → (h : ℕ) × (w.threads h ≡ some ready)
      by (inl (one_left, _)) = absurd (omega arith)
      by (inr (_, (h, held, only))) = (h, by_status (w.threads h) refl)
        where
          by_status : (s : Option ThreadStatus) → w.threads h ≡ s → w.threads h ≡ some ready
          by_status none e = ground (arith, (c.places h).gone)
          by_status (some just_created) e = ground (arith, (c.places h).gone)
          by_status (some running) e = ground (arith, c.alone h e)
          by_status (some ready) e = e
          by_status (some blocked) e = ground (arith, (c.places h).sleeps e)

  -- Acquire, from its start or from where it was woken: it returns, or the thread queues up and another
  -- runs. It never stops the machine.
  pub acquire-Consistent :
      holds (w.stage w.current_thread) ≡ false → (w' : System) × (acquire w ≡ ok w') × Consistent w'
  unfolding acquire
  acquire-Consistent free = by_turn (p_turn_lem acquiring entered (inl refl) refl free)
    where
      by_list :
          w.lock.sem.value ≡ 0
          → (l : List (ListElement ℕ)) → w.ready_list ≡ l
          → Dispatched l (p_turn acquiring entered w)
          → (w' : System) × (p_turn acquiring entered w ≡ ok w') × Consistent w'
      by_list taken [] list d =
          let (h, is_ready) = holder_ready taken free in
          ground (arith, (c.places h).readies, ap (count h) list)
      by_list taken (e ∷ es) list (w', ends, c', _) = (w', ends, c')

      by_turn :
          Turned entered w (p_turn acquiring entered w)
          → (w' : System) × (p_turn acquiring entered w ≡ ok w') × Consistent w'
      by_turn (inl (taken, d)) = by_list taken w.ready_list refl d
      by_turn (inr (_, w', e, c', _)) = (w', e, c')
