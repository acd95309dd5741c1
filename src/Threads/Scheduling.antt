-- ===== src/Threads/Scheduling.antt =====
-- Yield, Finish, Fork and the constructor of Thread keep every thread in its place.
use nach_osx.Prelude.{ok, ℕ, ◌≡◌, refl, ap, false, none, some, List, [], ◌∷◌, arith}
use nach_osx.SortedList.{ListElement, append, remove, sorted_remove}
use nach_osx.Threads.{
  just_created, running, ready, finished, System, put, at_stage, new_thread, ready_to_run,
  find_next_to_run, fork, yield_to, yield, finish,
}
use nach_osx.Threads.Places.{count, holds, Consistent, Between, count-append}
use nach_osx.Threads.Switching.{
  switched, run_lem, switched-current_thread, switched-ready_list, Exclusive-same, set_status_lem,
  Dispatched, parked, sleep_lem,
}

module _ (w : System) (c : Consistent w) where
  -- Yield: the running thread goes to the end of the ready list, and the first of it runs.
  yielding :
      (e : ListElement ℕ) (es : List (ListElement ℕ))
      → w.ready_list ≡ e ∷ es
      → Between
          (record w {
            threads = put w.threads w.current_thread (some ready);
            ready_list = append es w.current_thread;
          })
          e.item
  yielding e es list = record {
    nobody = λ t h. ground (arith, c.alone t);
    places = λ t.
        let a = c.places t in
        record {
          readies =
              ground
                (arith, a.readies, count-append t es w.current_thread, c.runs, ap (count t) list);
          queued = ground (arith, a.queued, c.runs);
          waits = ground (arith, a.waits, c.runs);
          sleeps = λ h. ground (arith, a.sleeps, c.runs);
          gone = λ h. ground (arith, a.gone, c.runs);
          carcass = λ h. ground (arith, a.carcass, c.runs);
        };
    exclusive = c.exclusive;
  }

  pub yield_to_next :
      (e : ListElement ℕ) (es : List (ListElement ℕ))
      → w.ready_list ≡ e ∷ es
      → (w' : System) × (yield w ≡ ok w')
        × Consistent w'
        × (w'.current_thread ≡ e.item)
        × (w'.ready_list ≡ append es w.current_thread)
  unfolding yield find_next_to_run remove sorted_remove yield_to ready_to_run
  yield_to_next e es list =
      let w₁ : System = record w {
        threads = put w.threads w.current_thread (some ready);
        ready_list = append es w.current_thread;
      } in
      let b = yielding e es list in
      let (ends, c') = run_lem w₁ e.item b in
      (
        switched e.item w₁,
        rw
            (
              list,
              set_status_lem w.current_thread ready (record w { ready_list = es }) running c.runs,
            )
            ends,
        c',
        switched-current_thread w₁ e.item b,
        switched-ready_list w₁ e.item b,
      )

  pub yield_alone : w.ready_list ≡ [] → yield w ≡ ok w
  unfolding yield find_next_to_run remove sorted_remove yield_to
  yield_alone list = rw list refl

  finishing :
      (e : ListElement ℕ) (es : List (ListElement ℕ))
      → w.ready_list ≡ e ∷ es
      → holds (w.stage w.current_thread) ≡ false
      → Between
          (parked
            (at_stage finished (record w { thread_to_be_destroyed = some w.current_thread }))
            es)
          e.item
  finishing e es list free = record {
    nobody = λ t h. ground (arith, c.alone t);
    places = λ t.
        let a = c.places t in
        record {
          readies = ground (arith, a.readies, c.runs, ap (count t) list);
          queued = ground (arith, a.queued, c.runs);
          waits = ground (arith, a.waits, c.runs);
          sleeps = λ h. ground (arith, a.sleeps, c.runs);
          gone = λ h. ground (arith, a.gone, c.runs);
          carcass = λ h. ground (arith, a.carcass, c.runs);
        };
    exclusive = Exclusive-same w (at_stage finished w) refl (λ t. ground arith) c.exclusive;
  }

  pub finish_lem : holds (w.stage w.current_thread) ≡ false → Dispatched w.ready_list (finish w)
  unfolding finish
  finish_lem free =
      sleep_lem (at_stage finished (record w { thread_to_be_destroyed = some w.current_thread }))
        w.ready_list refl c.runs (λ e es list. finishing e es list free)

  -- Fork makes a new thread ready.
  pub fork_lem :
      (t : ℕ) → w.threads t ≡ some just_created → (w' : System) × (fork t w ≡ ok w') × Consistent w'
  unfolding fork ready_to_run
  fork_lem t new = (
    record w { threads = put w.threads t (some ready); ready_list = append w.ready_list t },
    rw (set_status_lem t ready w just_created new) refl,
    record {
      runs = ground (arith, c.runs);
      alone = λ u h. ground (arith, c.alone u);
      places = λ u.
          let a = c.places u in
          record {
            readies = ground (arith, a.readies, count-append u w.ready_list t);
            queued = ground (arith, a.queued);
            waits = ground (arith, a.waits);
            sleeps = λ h. ground (arith, a.sleeps);
            gone = λ h. ground (arith, a.gone);
            carcass = λ h. ground (arith, a.carcass);
          };
      exclusive = c.exclusive;
    },
  )

  pub new_thread_lem : (t : ℕ) → w.threads t ≡ none → Consistent (new_thread t w)
  unfolding new_thread
  new_thread_lem t free = record {
    runs = ground (arith, c.runs);
    alone = λ u h. ground (arith, c.alone u);
    places = λ u.
        let a = c.places u in
        record {
          readies = ground (arith, a.readies);
          queued = ground (arith, a.queued);
          waits = ground (arith, a.waits);
          sleeps = λ h. ground (arith, a.sleeps);
          gone = λ h. ground (arith, a.gone);
          carcass = λ h. ground (arith, a.carcass);
        };
    exclusive =
        Exclusive-same w (new_thread t w) refl (λ u. ground (arith, (c.places u).gone)) c.exclusive;
  }
