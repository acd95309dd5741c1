-- ===== src/Threads/Monitor.antt =====
-- Wait, Signal and Broadcast, and the assignments of Acquire and Release, keep every thread in its place
-- and the lock to one thread.
use nach_osx.Prelude.{
  ◌==◌, if◌then◌else◌, Outcome, ok, ◌>>=◌, ℕ, ◌≡◌, refl, sym, ap, subst, inl, inr, Bool, true,
  false, Option, none, some, List, [], ◌∷◌, arith,
}
use nach_osx.SortedList.{ListElement, append, remove, sorted_remove}
use nach_osx.Threads.{
  ready, blocked, outside, entered, inside, leaving, waiting, reacquiring, System, put, at_stage,
  ready_to_run, p_turn, v, wake_all, take_lock, drop_lock, set_owner, clear_owner, wait, wait_again,
  signal, broadcast,
}
use nach_osx.Threads.Places.{count, holds, Consistent, Between, count-append}
use nach_osx.Threads.Switching.{
  Exclusive-same, at_stage-Consistent, set_status_lem, Dispatched, parked, sleep_lem,
}
use nach_osx.Threads.Waiting.{Turned, p_turn_lem}
use nach_osx.Threads.Releasing.{Raised, v_lem}

-- The two assignments of Acquire and of Release.
module _ (w : System) (c : Consistent w) where
  relabelled :
      (h : Bool) (o : Option ℕ)
      → Consistent (record w { lock = record { sem = w.lock.sem; is_held = h; owner = o } })
  relabelled h o = record {
    runs = c.runs;
    alone = c.alone;
    places = λ t.
        let a = c.places t in
        record {
          readies = a.readies;
          queued = a.queued;
          waits = a.waits;
          sleeps = a.sleeps;
          gone = a.gone;
          carcass = a.carcass;
        };
    exclusive = c.exclusive;
  }

  pub set_owner_lem : w.stage w.current_thread ≡ entered → Consistent (set_owner w)
  unfolding set_owner
  set_owner_lem s =
      at_stage-Consistent (take_lock w) (relabelled true (some w.current_thread)) inside
        (sym (ap holds s))

  pub clear_owner_lem : w.stage w.current_thread ≡ leaving → Consistent (clear_owner w)
  unfolding clear_owner
  clear_owner_lem s =
      at_stage-Consistent (drop_lock w) (relabelled false none) outside (sym (ap holds s))

  -- The front of the condition's queue is made ready.
  signalled :
      (e : ListElement ℕ) (es : List (ListElement ℕ))
      → w.hilos ≡ e ∷ es
      → (w.threads e.item ≡ some blocked)
        × Consistent (record w {
          threads = put w.threads e.item (some ready);
          ready_list = append w.ready_list e.item;
          hilos = es;
        })
  signalled e es list =
      let front : w.threads e.item ≡ some blocked =
        ground (arith, (c.places e.item).waits, ap (count e.item) list) in
      (
        front,
        record {
          runs = ground (arith, c.runs, front);
          alone = λ t h. ground (arith, c.alone t);
          places = λ t.
              let a = c.places t in
              record {
                readies = ground (arith, a.readies, front, count-append t w.ready_list e.item);
                queued =
                    ground
                      (arith, a.queued, front, (c.places e.item).waits, ap (count e.item) list);
                waits = ground (arith, a.waits, front, ap (count t) list);
                sleeps = λ h. ground (arith, a.sleeps);
                gone = λ h. ground (arith, a.gone);
                carcass =
                    λ h. ground (arith, a.carcass, (c.places e.item).waits, ap (count e.item) list);
              };
          exclusive = c.exclusive;
        },
      )

  pub signal_lem : (w' : System) × (signal w ≡ ok w') × Consistent w'
  unfolding signal remove sorted_remove ready_to_run
  signal_lem = by_queue w.hilos refl
    where
      by_queue :
          (q : List (ListElement ℕ))
          → w.hilos ≡ q
          → (w' : System) × (signal w ≡ ok w') × Consistent w'
      by_queue [] list = (w, rw list refl, c)
      by_queue (e ∷ es) list =
          let (front, c') = signalled e es list in
          (
            record w {
              threads = put w.threads e.item (some ready);
              ready_list = append w.ready_list e.item;
              hilos = es;
            },
            rw (list, set_status_lem e.item ready (record w { hilos = es }) blocked front) refl,
            c',
          )

wake_all_lem :
    (es : List (ListElement ℕ)) (w : System)
    → w.hilos ≡ []
    → Consistent (record w { hilos = es })
    → (w' : System) × (wake_all es w ≡ ok w') × Consistent w'
unfolding wake_all ready_to_run
wake_all_lem [] w empty c =
    (w, refl, subst (λ l. Consistent (record w { hilos = l })) (sym empty) c)
wake_all_lem (e ∷ es) w empty c =
    let (front, c') = signalled (record w { hilos = e ∷ es }) c e es refl in
    let w₁ : System = record w {
      threads = put w.threads e.item (some ready);
      ready_list = append w.ready_list e.item;
    } in
    let (w', ends, c'') = wake_all_lem es w₁ empty c' in
    (w', rw (set_status_lem e.item ready w blocked front) ends, c'')

pub broadcast_lem :
    (w : System) → Consistent w → (w' : System) × (broadcast w ≡ ok w') × Consistent w'
unfolding broadcast
broadcast_lem w c = wake_all_lem w.hilos (record w { hilos = [] }) refl c

module _ (w : System) (c : Consistent w) where
  -- The state in which the caller of Wait has released the lock and queued up for the condition.
  abbrev given_up : System → System
  given_up w' =
      at_stage waiting (record (drop_lock w') { hilos = append w'.hilos w'.current_thread })

  giving_up :
      (w' : System)
      → Raised w w'
      → (e : ListElement ℕ) (es : List (ListElement ℕ)) → w'.ready_list ≡ e ∷ es
      → Between (parked (given_up w') es) e.item
  giving_up w' r e es list =
      let d = r.consistent in
      record {
        nobody = λ t h. ground (arith, d.alone t);
        places = λ t.
            let a = d.places t in
            record {
              readies = ground (arith, a.readies, d.runs, ap (count t) list);
              queued = ground (arith, a.queued, d.runs);
              waits = ground (arith, a.waits, d.runs, count-append t w'.hilos w'.current_thread);
              sleeps = λ h. ground (arith, a.sleeps, d.runs);
              gone = λ h. ground (arith, a.gone, d.runs);
              carcass = λ h. ground (arith, a.carcass, d.runs);
            };
        exclusive =
            Exclusive-same (at_stage leaving w') (given_up w') refl (λ t. ground arith) d.exclusive;
      }

  pub wait_lem :
      w.stage w.current_thread ≡ inside
      → (w₁ : System) × (v w ≡ ok w₁) × Dispatched w₁.ready_list (wait w)
  unfolding wait
  wait_lem s =
      let (w₁, e, r) = v_lem w c (ap holds s) in
      (
        w₁,
        e,
        rw e (
            sleep_lem (given_up w₁) w₁.ready_list refl r.consistent.runs
              (λ f es list. giving_up w₁ r f es list)),
      )

  pub wait_again_lem : holds (w.stage w.current_thread) ≡ false → Turned inside w (wait_again w)
  unfolding wait_again
  wait_again_lem free = by_turn (p_turn_lem w c reacquiring inside (inr refl) refl free)
    where
      by_turn : Turned inside w (p_turn reacquiring inside w) → Turned inside w (wait_again w)
      by_turn (inl (taken, d)) =
          let test : (w.lock.sem.value == 0) ≡ true = ground arith in
          inl (taken, again w.ready_list (p_turn reacquiring inside w) _ test d)
        where
          again :
              (list : List (ListElement ℕ)) (r : Outcome System) (b : Bool)
              → b ≡ true
              → Dispatched list r
              → Dispatched list (r >>= λ w'. ok (if b then w' else take_lock w'))
          again [] r b is_zero e = rw e refl
          again (f ∷ fs) r b is_zero (w', e, c', first) = (w', rw (e, is_zero) refl, c', first)
      by_turn (inr (one_left, w', e, c', s)) = inr (
        one_left,
        take_lock w',
        rw (e, one_left) refl,
        relabelled w' c' true (some w'.current_thread),
        s,
      )
