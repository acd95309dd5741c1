-- ===== src/Interrupts/Loop.antt =====
-- The loop that calls CheckIfDue(false) until no interrupt is due.
use nach_osx.Prelude.{
  sym, ok, ℕ, zero, suc, ◌<◌, ◌≡◌, refl, ap, ◌∙◌, subst, Bool, true, false, [], ◌∷◌, arith,
}
use nach_osx.SortedList.Order.{Sorted}
use nach_osx.Interrupts.{
  PendingInterrupt, int_off, Statistics, Interrupt, Devices, is_idle, check_if_due, check_loop,
}
use nach_osx.Interrupts.Handlers.{run_handlers, Had, AllAsked-append, AllAsked-kept}
use nach_osx.Interrupts.Pending.{due, due_items, due_items-none}
use nach_osx.Interrupts.Firing.{
  Orderly, Steady, Round, Handled, quiet, ran_first, check_if_due-Round,
}

module _ {S : Type 0} (d : Devices S) (orderly : Orderly d) where
  -- The handler of `x`, and then those of the rest.
  Had-next :
      (x : PendingInterrupt) (i i' : Interrupt) (s s' : S) (i₂ : Interrupt) (s₂ : S)
      → Steady i i'
      → Steady i' i₂
      → Had
          (d.call x.handler x.arg i.stats.total_ticks (d.delayed_load s))
          i.stats.total_ticks
          i.yield_on_return
          i'
          s'
      → Had
          (run_handlers d i'.stats.total_ticks (due_items i'.stats.total_ticks i'.pending) s')
          i'.stats.total_ticks
          i'.yield_on_return
          i₂
          s₂
      → Had
          (run_handlers d i.stats.total_ticks (x ∷ due_items i.stats.total_ticks i'.pending) s)
          i.stats.total_ticks
          i.yield_on_return
          i₂
          s₂
  Had-next x i i' s s' i₂ s₂ t t₂ had had₂ =
      let now = i.stats.total_ticks in
      let e = d.call x.handler x.arg now (d.delayed_load s) in
      let items = due_items now i'.pending in
      let h : Had (run_handlers d now items e.rest) now i'.yield_on_return i₂ s₂ =
        subst (λ r. Had (run_handlers d now items r) now i'.yield_on_return i₂ s₂) had.rest_after
          (subst
            (λ (st : Statistics).
              Had (run_handlers d st.total_ticks (due_items st.total_ticks i'.pending) s')
                st.total_ticks i'.yield_on_return i₂ s₂)
            t.stats had₂) in
      record {
        rest_after = h.rest_after;
        switch = ground (arith, h.switch, had.switch);
        asked =
            AllAsked-append now e.requests (run_handlers d now items e.rest).requests i₂.pending
              (AllAsked-kept now e.requests i'.pending i₂.pending
                (orderly x.handler x.arg now (d.delayed_load s))
                (λ y later h'. t₂.kept y (ground (arith, t.stats)) h') had.asked)
              h.asked;
      }

  abbrev Ends : ℕ → Interrupt → S → Type 0
  Ends fuel i s =
      i.level ≡ int_off
      → i.in_handler ≡ false
      → Sorted i.pending
      → due i.stats.total_ticks i.pending < fuel
      → (i' : Interrupt) × (s' : S) × (check_loop d fuel i s ≡ ok (i', s'))
        × Steady i i'
        × (is_idle i.status ≡ false → due i.stats.total_ticks i'.pending ≡ 0)
        × (is_idle i.status ≡ false
            → Had (run_handlers d i.stats.total_ticks (due_items i.stats.total_ticks i.pending) s)
                i.stats.total_ticks i.yield_on_return i' s')

  -- With more rounds than there are due interrupts the loop ends, and leaves none that is due.
  pub check_loop-Steady : (fuel : ℕ) (i : Interrupt) (s : S) → Ends fuel i s
  unfolding check_loop
  check_loop-Steady zero i s off handled sorted enough = absurd (omega arith)
  check_loop-Steady (suc fuel) i s off handled sorted enough =
      by_round (check_if_due-Round d orderly i s off handled sorted)
        (λ j r. check_loop-Steady fuel j r)
    where
      Goal : Type 0
      Goal =
          (i' : Interrupt) × (s' : S) × (check_loop d (suc fuel) i s ≡ ok (i', s'))
          × Steady i i'
          × (is_idle i.status ≡ false → due i.stats.total_ticks i'.pending ≡ 0)
          × (is_idle i.status ≡ false
              → Had (run_handlers d i.stats.total_ticks (due_items i.stats.total_ticks i.pending) s)
                  i.stats.total_ticks i.yield_on_return i' s')

      by_round :
          (fired : Bool) × (i' : Interrupt) × (s' : S) × (check_if_due d false i s
              ≡ ok (fired, (i', s')))
            × Round i fired i'
            × Handled d i s fired i' s'
          → ((j : Interrupt) (r : S) → Ends fuel j r)
          → Goal
      by_round (false, i', s', e, r, quiet f same yields) again = (
        i',
        s',
        rw e refl,
        r.steady,
        r.none_due refl,
        λ busy.
            let none_left : due_items i.stats.total_ticks i.pending ≡ [] =
              due_items-none i.stats.total_ticks i.pending
                (omega (arith, r.count, r.none_due refl busy)) in
            subst
              (λ l.
                Had (run_handlers d i.stats.total_ticks l s) i.stats.total_ticks i.yield_on_return
                  i' s')
              (sym none_left)
              (record { rest_after = same; switch = ground (arith, yields); asked = tt }),
      )
      by_round (false, i', s', e, r, ran_first x f items had) again = cc f
      by_round (true, i', s', e, r, quiet f same yields) again = cc f
      by_round (true, i', s', e, r, ran_first x f items had) again =
          let t = r.steady in
          let (i₂, s₂, e₂, t₂, none_left, had₂) =
            again i' s' (t.level ∙ off) t.handled t.sorted (ground (arith, r.count, t.stats)) in
          (
            i₂,
            s₂,
            rw e e₂,
            record {
              level = t₂.level ∙ t.level;
              status = t₂.status ∙ t.status;
              stats = t₂.stats ∙ t.stats;
              handled = t₂.handled;
              sorted = t₂.sorted;
              kept = λ x later h. t₂.kept x (ground (arith, t.stats)) (t.kept x later h);
            },
            λ busy. ground (arith, none_left, t.status, t.stats),
            λ busy.
                subst
                  (λ l.
                    Had (run_handlers d i.stats.total_ticks l s) i.stats.total_ticks
                      i.yield_on_return i₂ s₂)
                  (sym items)
                  (Had-next x i i' s s' i₂ s₂ t t₂ had (had₂ (ap is_idle t.status ∙ busy))),
          )
