-- ===== src/Threads/Switching.antt =====
-- Run and Sleep: a change of the running thread that has begun ends with the next thread running.
use nach_osx.Prelude.{
  if◌then◌else◌, Bool-cases, Outcome, ok, abort, ℕ, ◌≡◌, refl, sym, ap, ◌∙◌, ◌⊎◌, inl, inr, Bool,
  true, false, Option, none, some, List, [], ◌∷◌, arith,
}
use nach_osx.SortedList.{ListElement, remove, sorted_remove}
use nach_osx.Threads.{
  ThreadStatus, running, ready, blocked, Stage, at_root, outside, acquiring, entered, inside,
  leaving, waiting, reacquiring, finished, System, put, at_stage, set_status, find_next_to_run,
  delete_thread, after_switch, run, dispatch, sleep,
}
use nach_osx.Threads.Places.{holds, Exclusive, Consistent, Between}

-- The state in which `next` has the processor and goes on.
pub resumed : ℕ → System → System
resumed next w = record w { current_thread = next; threads = put w.threads next (some running) }

abbrev pub not_started : Stage → Bool
not_started at_root = true
not_started _ = false

pub buried : Option ℕ → System → System
buried none w = w
buried (some t) w = record w { threads = put w.threads t none; thread_to_be_destroyed = none }

pub switched : ℕ → System → System
unfolding resumed buried
switched next w =
    let w' = resumed next w in
    if not_started (w'.stage next) then at_stage outside w' else buried w'.thread_to_be_destroyed w'

module _ (w : System) (next : ℕ) (b : Between w next) where
  is_ready : w.threads next ≡ some ready
  is_ready = ground (arith, b.places next, (b.places next).readies)

  resumed-Consistent : Consistent (resumed next w)
  unfolding resumed
  resumed-Consistent = record {
    runs = ground arith;
    alone = λ t h. ground (arith, b.nobody t);
    places = λ t.
        let a = b.places t in
        record {
          readies = ground (arith, a.readies, is_ready);
          queued = ground (arith, a.queued, is_ready);
          waits = ground (arith, a.waits, is_ready);
          sleeps = λ h. ground (arith, a.sleeps, is_ready);
          gone = λ h. ground (arith, a.gone, is_ready);
          carcass = λ h. ground (arith, a.carcass, is_ready);
        };
    exclusive = b.exclusive;
  }

pub Exclusive-same :
    (w w' : System)
    → w'.lock.sem.value ≡ w.lock.sem.value
    → ((t : ℕ) → holds (w'.stage t) ≡ holds (w.stage t))
    → Exclusive w
    → Exclusive w'
Exclusive-same w w' value same (inl (one_left, none_holds)) =
    inl (value ∙ one_left, λ t. same t ∙ none_holds t)
Exclusive-same w w' value same (inr (taken, (h, held, only))) =
    inr (value ∙ taken, (h, same h ∙ held, λ t p. only t (sym (same t) ∙ p)))

module _ (w : System) (c : Consistent w) where
  -- The running thread goes on to another stage.
  pub at_stage-Consistent :
      (s : Stage) → holds s ≡ holds (w.stage w.current_thread) → Consistent (at_stage s w)
  at_stage-Consistent s same = record {
    runs = c.runs;
    alone = c.alone;
    places = λ t.
        let a = c.places t in
        record {
          readies = a.readies;
          queued = ground (arith, a.queued, c.runs);
          waits = ground (arith, a.waits, c.runs);
          sleeps = λ h. ground (arith, a.sleeps, c.runs);
          gone = λ h. ground (arith, a.gone, c.runs);
          carcass = λ h. ground (arith, a.carcass, c.runs);
        };
    exclusive = Exclusive-same w (at_stage s w) refl (λ t. ground arith) c.exclusive;
  }

  -- The deletion of a finished thread, which is not the one that runs.
  buried-Consistent : (d : ℕ) → w.thread_to_be_destroyed ≡ some d → Consistent (buried (some d) w)
  unfolding buried
  buried-Consistent d e =
      let (is_blocked, is_finished) = (c.places d).carcass e in
      record {
        runs = ground (arith, c.runs);
        alone = λ t h. ground (arith, c.alone t);
        places = λ t.
            let a = c.places t in
            record {
              readies = ground (arith, a.readies);
              queued = ground (arith, a.queued);
              waits = ground (arith, a.waits);
              sleeps = λ h. ground (arith, a.sleeps);
              gone = λ h. ground (arith, a.gone);
              carcass = λ h. cc;
            };
        exclusive = c.exclusive;
      }

  delete_thread_lem :
      (o : Option ℕ)
      → w.thread_to_be_destroyed ≡ o
      → (delete_thread o w ≡ ok (buried o w)) × Consistent (buried o w)
  unfolding delete_thread buried
  delete_thread_lem none e = (refl, c)
  delete_thread_lem (some d) e =
      (ground (arith, (c.places d).carcass e, c.runs), buried-Consistent d e)

started :
    (s : Stage)
    → (s ≡ at_root)
      ⊎ ((not_started s ≡ false)
          × ((w : System) → after_switch s w ≡ delete_thread w.thread_to_be_destroyed w))
unfolding after_switch
started at_root = inl refl
started outside = inr (refl, λ w. refl)
started acquiring = inr (refl, λ w. refl)
started entered = inr (refl, λ w. refl)
started inside = inr (refl, λ w. refl)
started leaving = inr (refl, λ w. refl)
started waiting = inr (refl, λ w. refl)
started reacquiring = inr (refl, λ w. refl)
started finished = inr (refl, λ w. refl)

pub set_status_lem :
    (t : ℕ) (s : ThreadStatus) (w : System) (old : ThreadStatus)
    → w.threads t ≡ some old
    → set_status t s w ≡ ok (record w { threads = put w.threads t (some s) })
unfolding set_status
set_status_lem t s w old e = rw e refl

module _ (w : System) (next : ℕ) (b : Between w next) where
  run-after_switch : run next w ≡ after_switch (w.stage next) (resumed next w)
  unfolding run resumed
  run-after_switch =
      rw
        (set_status_lem next running (record w { current_thread = next }) ready (is_ready w next b))
        refl

  -- The thread taken off the ready list gets the processor.
  pub run_lem : (run next w ≡ ok (switched next w)) × Consistent (switched next w)
  unfolding switched resumed after_switch
  run_lem =
      let w' = resumed next w in
      let c = resumed-Consistent w next b in
      let (e, c') = delete_thread_lem w' c w'.thread_to_be_destroyed refl in
      elim (started (w.stage next)) [
        | inl new ↦
            rw (run-after_switch, new) (refl, at_stage-Consistent w' c outside (ap holds (sym new)))
        | inr (old, goes_on) ↦ rw (run-after_switch, goes_on (resumed next w), old) (e, c')
      ]

  pub switched-current_thread : (switched next w).current_thread ≡ next
  unfolding switched resumed buried
  switched-current_thread = elim (Bool-cases (not_started (w.stage next))) [
    | inl new ↦ rw new refl
    | inr old ↦ rw old (of w.thread_to_be_destroyed)
  ]
    where
      of : (o : Option ℕ) → (buried o (resumed next w)).current_thread ≡ next
      of none = refl
      of (some d) = refl

  pub switched-ready_list : (switched next w).ready_list ≡ w.ready_list
  unfolding switched resumed buried
  switched-ready_list = elim (Bool-cases (not_started (w.stage next))) [
    | inl new ↦ rw new refl
    | inr old ↦ rw old (of w.thread_to_be_destroyed)
  ]
    where
      of : (o : Option ℕ) → (buried o (resumed next w)).ready_list ≡ w.ready_list
      of none = refl
      of (some d) = refl

-- The first thread of the ready list has the processor, or the machine has nothing to run.
abbrev pub Dispatched : List (ListElement ℕ) → Outcome System → Type 0
Dispatched [] r = r ≡ abort
Dispatched (e ∷ es) r = (w' : System) × (r ≡ ok w') × Consistent w' × (w'.current_thread ≡ e.item)

-- The running thread falls asleep, and `es` are the ready threads behind the first.
abbrev pub parked : System → List (ListElement ℕ) → System
parked w es = record w { threads = put w.threads w.current_thread (some blocked); ready_list = es }

pub sleep_lem :
    (w : System) (list : List (ListElement ℕ))
    → w.ready_list ≡ list
    → w.threads w.current_thread ≡ some running
    → ((e : ListElement ℕ) (es : List (ListElement ℕ))
        → list ≡ e ∷ es
        → Between (parked w es) e.item)
    → Dispatched list (sleep w)
unfolding sleep find_next_to_run remove sorted_remove dispatch
sleep_lem w [] list runs between =
    rw (set_status_lem w.current_thread blocked w running runs, list) refl
sleep_lem w (e ∷ es) list runs between =
    let b = between e es refl in
    let (ends, c) = run_lem (parked w es) e.item b in
    (
      switched e.item (parked w es),
      rw (set_status_lem w.current_thread blocked w running runs, list) ends,
      c,
      switched-current_thread (parked w es) e.item b,
    )
