-- ===== src/Interrupts/Ticking.antt =====
-- OneTick and Idle: they end, the clock moves as it should, and nothing that is due is left.
use nach_osx.Prelude.{
  Outcome, ◌>>=◌, if◌then◌else◌, ltb, Bool-cases, length, ok, ℕ, ◌+◌, ◌-◌, ◌≤◌, ◌<◌, max, ◌≡◌, refl,
  ap, ◌∙◌, ◌⊎◌, inl, inr, true, false, ◌&&◌, none, some, List, [], ◌∷◌, arith,
}
use nach_osx.SortedList.{ListElement, is_empty, sorted_remove}
use nach_osx.SortedList.Order.{Sorted}
use nach_osx.Interrupts.{
  PendingInterrupt, int_off, int_on, idle_mode, system_mode, MachineStatus, Statistics, Interrupt,
  Devices, change_level, tick, advance, is_idle, is_timer, fire_or_quit, check_due, check_if_due,
  switch_on_return, one_tick, idle,
}
use nach_osx.Interrupts.Pending.{due, due_items, Has}
use nach_osx.Interrupts.Handlers.{run_handlers, Had}
use nach_osx.Interrupts.Firing.{Orderly, fire-Steady}
use nach_osx.Interrupts.Loop.{check_loop-Steady}

due-length : (now : ℕ) (es : List (ListElement PendingInterrupt)) → due now es ≤ length es
due-length now [] = omega arith
due-length now (e ∷ es) = ground (arith, due-length now es)

-- `i'` is `i` after a tick and the handlers that were due by then.
pub record Ticked (i i' : Interrupt) : Type 0 where
  pub level : i'.level ≡ int_on
  pub clock : i'.stats ≡ tick i.status i.stats
  pub status : i'.status ≡ i.status
  pub sorted : Sorted i'.pending
  pub none_due : due i'.stats.total_ticks i'.pending ≡ 0
  pub kept :
      (x : ListElement PendingInterrupt)
      → i'.stats.total_ticks < x.key
      → Has x i.pending
      → Has x i'.pending

-- Where a switch is wanted, the running thread yields, in system mode, and finds its mode again.
abbrev pub after_tick :
    {S : Type 0} → Devices S → MachineStatus → Interrupt → S → Outcome (Interrupt × S)
after_tick d mode i s =
    if i.yield_on_return
    then (d.yield (record i { yield_on_return = false; status = system_mode }) s >>= λ r.
        ok (record r.0 { status = mode }, r.1))
    else ok (i, s)

-- `i'` is `i` after an idle time up to `first`.
pub record Rolled (i : Interrupt) (first : ℕ) (i' : Interrupt) : Type 0 where
  pub clock : i'.stats.total_ticks ≡ max first i.stats.total_ticks
  pub idle_time : i'.stats.idle_ticks ≡ i.stats.idle_ticks + (first - i.stats.total_ticks)
  pub status : i'.status ≡ system_mode
  pub sorted : Sorted i'.pending

module _ {S : Type 0} (d : Devices S) (orderly : Orderly d) where
  -- OneTick, where no handler schedules for the present: its loop ends after one round more than there
  -- are pending interrupts, at most. Then time is one tick further, no interrupt is due, those that are
  -- not due are all pending, in order, and interrupts are on. The handlers of the interrupts that were due
  -- by then have run, each once and in their order, and no other: the rest of the machine is what they make
  -- of it, what they asked for is pending, and a switch is made where one was wanted before or one of them
  -- asks for it.
  pub one_tick-Ticked :
      (fuel : ℕ) (i : Interrupt) (s : S)
      → i.level ≡ int_on
      → i.in_handler ≡ false
      → is_idle i.status ≡ false
      → Sorted i.pending
      → length i.pending < fuel
      → (i' : Interrupt) × (s' : S) × (one_tick d fuel i s ≡ after_tick d i.status i' s')
        × Ticked i i'
        × Had
            (run_handlers d
              (tick i.status i.stats).total_ticks
              (due_items (tick i.status i.stats).total_ticks i.pending)
              s)
            (tick i.status i.stats).total_ticks
            i.yield_on_return
            i'
            s'
  unfolding one_tick switch_on_return
  one_tick-Ticked fuel i s on handled busy sorted enough =
      let t = tick i.status i.stats in
      let (i', s', ends, steady, none_left, ran) =
        check_loop-Steady d orderly fuel (change_level int_off (record i { stats = t })) s refl
          handled sorted (omega (arith, due-length t.total_ticks i.pending)) in
      (
        change_level int_on i',
        s',
        rw ends refl,
        record {
          level = refl;
          clock = steady.stats;
          status = steady.status;
          sorted = steady.sorted;
          none_due = ground (arith, none_left busy, steady.stats);
          kept = λ x later h. steady.kept x (ground (arith, steady.stats)) h;
        },
        (let had = ran busy in
            record { rest_after = had.rest_after; switch = had.switch; asked = had.asked }),
      )

  idle_first :
      (i : Interrupt) (s : S) (e : ListElement PendingInterrupt)
      (es : List (ListElement PendingInterrupt))
      → i.level ≡ int_off
      → i.pending ≡ e ∷ es
      → (t : Statistics) × (t.total_ticks ≡ max e.key i.stats.total_ticks)
        × (t.idle_ticks ≡ i.stats.idle_ticks + (e.key - i.stats.total_ticks))
        × (check_if_due d true (record i { status = idle_mode }) s
            ≡ fire_or_quit d e (record i { status = idle_mode; pending = es; stats = t }) s)
  unfolding check_if_due sorted_remove check_due
  idle_first i s e es off list = elim (Bool-cases (ltb i.stats.total_ticks e.key)) [
    | inl later ↦ (advance i.stats e.key, ground (arith, later), refl, rw (list, off, later) refl)
    | inr now ↦ (i.stats, ground (arith, now), ground (arith, now), rw (list, off, now) refl)
  ]

  -- Idle, with an interrupt pending that is not the timer alone: the clock moves on to the first, not
  -- back if that one is overdue, the time between counts as idle, and the machine does not halt.
  pub idle-Rolled :
      (fuel : ℕ) (i : Interrupt) (s : S) (e : ListElement PendingInterrupt)
      (es : List (ListElement PendingInterrupt))
      → i.level ≡ int_off
      → i.pending ≡ e ∷ es
      → Sorted (e ∷ es)
      → (is_timer e.item.type && is_empty es) ≡ false
      → length es < fuel
      → (i' : Interrupt) × (s' : S) × (idle d fuel i s ≡ ok (some (i', s'))) × Rolled i e.key i'
  unfolding idle fire_or_quit
  idle-Rolled fuel i s e es off list sorted goes_on enough =
      let (t, total, spent, first) = idle_first i s e es off list in
      let (i₁, s₁, fired, steady, same, _, _) =
        fire-Steady d orderly e.item (record i { status = idle_mode; pending = es; stats = t }) s
          sorted.1 in
      let (i₂, s₂, ends, steady₂, _, _) =
        check_loop-Steady d orderly fuel i₁ s₁ (steady.level ∙ off) steady.handled steady.sorted
          (ground (arith, same, steady.stats, due-length t.total_ticks es)) in
      (
        record i₂ { yield_on_return = false; status = system_mode },
        s₂,
        rw (first, goes_on, fired) (rw ends refl),
        record {
          clock = ap (λ (x : Statistics). x.total_ticks) (steady₂.stats ∙ steady.stats) ∙ total;
          idle_time = ap (λ (x : Statistics). x.idle_ticks) (steady₂.stats ∙ steady.stats) ∙ spent;
          status = refl;
          sorted = steady₂.sorted;
        },
      )

  -- Idle halts a machine with nothing pending, and one with the timer alone.
  pub idle_halts :
      (fuel : ℕ) (i : Interrupt) (s : S)
      → i.level ≡ int_off
      → (i.pending ≡ [])
        ⊎ ((e : ListElement PendingInterrupt) × (i.pending ≡ e ∷ [])
            × (is_timer e.item.type ≡ true))
      → idle d fuel i s ≡ ok none
  unfolding idle fire_or_quit check_if_due sorted_remove check_due is_empty
  idle_halts fuel i s off (inl list) = rw (list, off) refl
  idle_halts fuel i s off (inr (e, list, timer)) =
      elim (Bool-cases (ltb i.stats.total_ticks e.key)) [
        | inl later ↦ rw (list, off, later, timer) refl
        | inr now ↦ rw (list, off, now, timer) refl
      ]
