-- ===== src/Threads/Releasing.antt =====
-- Semaphore::V and Lock::Release let the next thread through.
use nach_osx.Prelude.{
  ok, ℕ, ◌+◌, ◌≡◌, refl, ap, ◌≢◌, inl, inr, true, false, some, List, [], ◌∷◌, arith,
}
use nach_osx.SortedList.{ListElement, append, remove, sorted_remove}
use nach_osx.Threads.{
  ready, blocked, Stage, leaving, System, put, at_stage, ready_to_run, with_sem, v, release,
}
use nach_osx.Threads.Places.{count, holds, Exclusive, Consistent, count-append}
use nach_osx.Threads.Switching.{set_status_lem}
use nach_osx.Threads.Waiting.{front_blocked}

-- What V leaves, with the thread that calls it at a stage where it does not hold the lock.
pub record Raised (w w' : System) : Type 0 where
  pub same_thread : w'.current_thread ≡ w.current_thread
  pub same_hilos : w'.hilos ≡ w.hilos
  pub same_stage : w'.stage ≡ w.stage
  pub consistent : Consistent (at_stage leaving w')

module _ (w : System) (c : Consistent w) (holder : holds (w.stage w.current_thread) ≡ true) where
  taken_lem : w.lock.sem.value ≡ 0
  taken_lem = by c.exclusive
    where
      by : Exclusive w → w.lock.sem.value ≡ 0
      by (inl (_, none_holds)) = ground (arith, none_holds w.current_thread)
      by (inr (taken, _)) = taken

  released :
      (s : Stage) (w' : System)
      → holds s ≡ false
      → w'.stage ≡ put w.stage w.current_thread s
      → w'.lock.sem.value ≡ 1
      → Exclusive w'
  released s w' free stages one_left =
      inl (one_left, λ t. ground (arith, ap (λ f. f t) stages, nobody_else t c.exclusive))
    where
      nobody_else : (t : ℕ) → Exclusive w → t ≢ w.current_thread → holds (w.stage t) ≡ false
      nobody_else t (inl (_, none_holds)) ne = none_holds t
      nobody_else t (inr (_, (h, held, only))) ne = ground (arith, only t, only w.current_thread)

  pub v_lem : (w' : System) × (v w ≡ ok w') × Raised w w'
  unfolding v remove sorted_remove ready_to_run
  v_lem = by_queue w.lock.sem.queue refl
    where
      by_queue :
          (q : List (ListElement ℕ))
          → w.lock.sem.queue ≡ q
          → (w' : System) × (v w ≡ ok w') × Raised w w'
      by_queue [] list =
          let w' = with_sem (record { value = w.lock.sem.value + 1; queue = [] }) w in
          (
            w',
            rw list refl,
            record {
              same_thread = refl;
              same_hilos = refl;
              same_stage = refl;
              consistent = record {
                runs = c.runs;
                alone = c.alone;
                places = λ t.
                    let a = c.places t in
                    record {
                      readies = a.readies;
                      queued = ground (arith, a.queued, c.runs, ap (count t) list);
                      waits = ground (arith, a.waits, c.runs);
                      sleeps = λ h. ground (arith, a.sleeps, c.runs);
                      gone = λ h. ground (arith, a.gone, c.runs);
                      carcass = λ h. ground (arith, a.carcass, c.runs);
                    };
                exclusive =
                    released leaving (at_stage leaving w') refl refl (omega (arith, taken_lem));
              };
            },
          )
      by_queue (e ∷ es) list =
          let front = front_blocked w c e es list in
          let w' : System =
            with_sem (record { value = w.lock.sem.value + 1; queue = es })
              (record w {
                threads = put w.threads e.item (some ready);
                ready_list = append w.ready_list e.item;
              }) in
          (
            w',
            rw
                (
                  list,
                  set_status_lem e.item ready
                      (with_sem (record { value = w.lock.sem.value; queue = es }) w) blocked front,
                )
                refl,
            record {
              same_thread = refl;
              same_hilos = refl;
              same_stage = refl;
              consistent = record {
                runs = ground (arith, c.runs, front);
                alone = λ t h. ground (arith, c.alone t);
                places = λ t.
                    let a = c.places t in
                    record {
                      readies =
                          ground
                            (arith, a.readies, c.runs, front, count-append t w.ready_list e.item);
                      queued = ground (arith, a.queued, c.runs, front, ap (count t) list);
                      waits = ground (arith, a.waits, c.runs, front);
                      sleeps = λ h. ground (arith, a.sleeps, c.runs);
                      gone = λ h. ground (arith, a.gone, c.runs);
                      carcass = λ h. ground (arith, a.carcass, c.runs);
                    };
                exclusive =
                    released leaving (at_stage leaving w') refl refl (omega (arith, taken_lem));
              };
            },
          )

  pub release_lem : (w' : System) × (release w ≡ ok w') × Consistent w'
  unfolding release
  release_lem = let (w', e, r) = v_lem in (at_stage leaving w', rw e refl, r.consistent)
