-- ===== src/Interrupts/Firing.antt =====
-- One call of CheckIfDue(false).
use nach_osx.Prelude.{
  sym, ltb, ltb→lt, Bool-cases, ok, ◌>>=◌, ℕ, ◌+◌, ◌<◌, ◌≡◌, refl, ap, ◌∙◌, subst, ◌⊎◌, inl, inr,
  Bool, true, false, ◌&&◌, ◌||◌, List, [], ◌∷◌, arith,
}
use nach_osx.SortedList.{ListElement, is_empty, sorted_insert, sorted_remove}
use nach_osx.SortedList.Order.{Sorted, FirstFrom, sorted_insert-Sorted}
use nach_osx.Interrupts.{
  PendingInterrupt, int_off, system_mode, Interrupt, Devices, is_idle, is_timer, fire, fire_or_quit,
  check_due, check_if_due,
}
use nach_osx.Interrupts.Handlers.{Had}
use nach_osx.Interrupts.Pending.{
  one, due, due_items, Has, AllLater, due-sorted_insert, Has-sorted_insert, schedule_all-Scheduled,
}

-- Every handler schedules for a later time only.
abbrev pub Orderly : {S : Type 0} → Devices S → Type 0
Orderly {S} d = (handler arg now : ℕ) (s : S) → AllLater (d.call handler arg now s).requests

-- What the hardware keeps while handlers run: the clock, the level and the mode, the order of the
-- pending interrupts, and each of them that is not due.
pub record Steady (i i' : Interrupt) : Type 0 where
  pub level : i'.level ≡ i.level
  pub status : i'.status ≡ i.status
  pub stats : i'.stats ≡ i.stats
  pub handled : i'.in_handler ≡ false
  pub sorted : Sorted i'.pending
  pub kept :
      (x : ListElement PendingInterrupt)
      → i.stats.total_ticks < x.key
      → Has x i.pending
      → Has x i'.pending

-- `fired` says that one due interrupt is gone; otherwise none is due, or the machine is idle.
pub record Round (i : Interrupt) (fired : Bool) (i' : Interrupt) : Type 0 where
  pub steady : Steady i i'
  pub count : due i.stats.total_ticks i'.pending + one fired ≡ due i.stats.total_ticks i.pending
  pub none_due : fired ≡ false → is_idle i.status ≡ false → due i.stats.total_ticks i'.pending ≡ 0

module _ {S : Type 0} (d : Devices S) (orderly : Orderly d) where
  pub fire-Steady :
      (x : PendingInterrupt) (i : Interrupt) (s : S)
      → Sorted i.pending
      → (i' : Interrupt) × (s' : S) × (fire d x i s ≡ ok (i', s'))
        × Steady i i'
        × (due i.stats.total_ticks i'.pending ≡ due i.stats.total_ticks i.pending)
        × (due_items i.stats.total_ticks i'.pending ≡ due_items i.stats.total_ticks i.pending)
        × Had
            (d.call x.handler x.arg i.stats.total_ticks (d.delayed_load s))
            i.stats.total_ticks
            i.yield_on_return
            i'
            s'
  unfolding fire
  fire-Steady x i s sorted =
      let e = d.call x.handler x.arg i.stats.total_ticks (d.delayed_load s) in
      let begun = record i { in_handler = true; status = system_mode } in
      let (i₁, ends, u, asked) =
        schedule_all-Scheduled e.requests begun
          (orderly x.handler x.arg i.stats.total_ticks (d.delayed_load s)) in
      (
        record i₁ {
          yield_on_return = i₁.yield_on_return || e.wants_yield;
          status = i.status;
          in_handler = false;
        },
        e.rest,
        rw ends refl,
        record {
          level = ap (λ (j : Interrupt). j.level) u.same;
          status = refl;
          stats = ap (λ (j : Interrupt). j.stats) u.same;
          handled = refl;
          sorted = u.sorted sorted;
          kept = λ y later h. u.kept y h;
        },
        u.due_same,
        u.items_same,
        record {
          rest_after = refl;
          switch = ap (λ (j : Interrupt). j.yield_on_return || e.wants_yield) u.same;
          asked = asked;
        },
      )

-- What a round did beside: nothing, or the handler of the first interrupt that was due has run.
pub data Handled {S : Type 0} (d : Devices S) (i : Interrupt) (s : S) (fired : Bool)
    (i' : Interrupt) (s' : S) : Type 0 where
  quiet :
      fired ≡ false → s' ≡ s → i'.yield_on_return ≡ i.yield_on_return → Handled d i s fired i' s'
  ran_first :
      (x : PendingInterrupt)
      → fired ≡ true
      → due_items i.stats.total_ticks i.pending ≡ x ∷ due_items i.stats.total_ticks i'.pending
      → Had
          (d.call x.handler x.arg i.stats.total_ticks (d.delayed_load s))
          i.stats.total_ticks
          i.yield_on_return
          i'
          s'
      → Handled d i s fired i' s'

FirstFrom-due :
    (now : ℕ) (e : ListElement PendingInterrupt) (es : List (ListElement PendingInterrupt))
    → now < e.key
    → FirstFrom e.key es
    → Sorted es
    → due now es ≡ 0
FirstFrom-due now e [] later first sorted = refl
FirstFrom-due now e (f ∷ fs) later first sorted =
    ground (arith, FirstFrom-due now f fs (omega arith) sorted.0 sorted.1)

module _ {S : Type 0} (d : Devices S) (orderly : Orderly d) where
  -- A call of CheckIfDue(false) ends, whatever is pending.
  pub check_if_due-Round :
      (i : Interrupt) (s : S)
      → i.level ≡ int_off
      → i.in_handler ≡ false
      → Sorted i.pending
      → (fired : Bool) × (i' : Interrupt) × (s' : S) × (check_if_due d false i s
          ≡ ok (fired, (i', s')))
        × Round i fired i'
        × Handled d i s fired i' s'
  unfolding check_if_due sorted_remove check_due fire_or_quit
  check_if_due-Round i s off idle_handler sorted = by_list i.pending refl
    where
      Goal : Type 0
      Goal =
          (fired : Bool) × (i' : Interrupt) × (s' : S) × (check_if_due d false i s
            ≡ ok (fired, (i', s')))
          × Round i fired i'
          × Handled d i s fired i' s'

      put_back :
          (e : ListElement PendingInterrupt) (es : List (ListElement PendingInterrupt))
          → i.pending ≡ e ∷ es
          → (i.stats.total_ticks < e.key) ⊎ (is_idle i.status ≡ true)
          → Round i false (record i { pending = sorted_insert es e.item e.key })
      put_back e es list why =
          let s' : Sorted (e ∷ es) = subst Sorted list sorted in
          let n = due-sorted_insert i.stats.total_ticks es e.item e.key in
          record {
            steady = record {
              level = refl;
              status = refl;
              stats = refl;
              handled = idle_handler;
              sorted = sorted_insert-Sorted es e.item e.key s'.1;
              kept = λ x later h. Has-sorted_insert x es e.item e.key (subst (Has x) list h);
            };
            count = ground (arith, n, ap (due i.stats.total_ticks) list);
            none_due = λ f busy. elim why [
              | inl later ↦
                  ground (arith, n, FirstFrom-due i.stats.total_ticks e es later s'.0 s'.1)
              | inr is_idle ↦ cc
            ];
          }

      fires_lem :
          (e : ListElement PendingInterrupt) (es : List (ListElement PendingInterrupt))
          → i.pending ≡ e ∷ es
          → ltb i.stats.total_ticks e.key ≡ false
          → ((is_idle i.status && is_timer e.item.type) && is_empty es) ≡ false
          → check_if_due d false i s
            ≡ (fire d e.item (record i { pending = es }) s >>= λ x. ok (true, x))
      fires_lem e es list now fires = rw (list, off, now, fires) refl

      by_list : (l : List (ListElement PendingInterrupt)) → i.pending ≡ l → Goal
      by_list [] list = (
        false,
        record i { pending = [] },
        s,
        rw (list, off) refl,
        record {
          steady = record {
            level = refl;
            status = refl;
            stats = refl;
            handled = idle_handler;
            sorted = tt;
            kept = λ x later h. subst (Has x) list h;
          };
          count = ground (arith, ap (due i.stats.total_ticks) list);
          none_due = λ f busy. refl;
        },
        quiet refl refl refl,
      )
      by_list (e ∷ es) list = elim (Bool-cases (ltb i.stats.total_ticks e.key)) [
        | inl later ↦ (
          false,
          record i { pending = sorted_insert es e.item e.key },
          s,
          rw (list, off, later) refl,
          put_back e es list (inl (ltb→lt _ _ later)),
          quiet refl refl refl,
        )
        | inr now ↦ elim (Bool-cases ((is_idle i.status && is_timer e.item.type) && is_empty es)) [
          | inl quit ↦ (
            false,
            record i { pending = sorted_insert es e.item e.key },
            s,
            rw (list, off, now, quit) refl,
            put_back e es list (inr (ground arith)),
            quiet refl refl refl,
          )
          | inr fires ↦
              let s₁ : Sorted (e ∷ es) = subst Sorted list sorted in
              let (i', s', ends, steady, same, items, had) =
                fire-Steady d orderly e.item (record i { pending = es }) s s₁.1 in
              (
                true,
                i',
                s',
                fires_lem e es list now fires ∙ ap (λ r. r >>= λ x. ok (true, x)) ends,
                record {
                  steady = record {
                    level = steady.level;
                    status = steady.status;
                    stats = steady.stats;
                    handled = steady.handled;
                    sorted = steady.sorted;
                    kept = λ x later h. steady.kept x later (ground (arith, subst (Has x) list h));
                  };
                  count = ground (arith, same, ap (due i.stats.total_ticks) list);
                  none_due = λ f busy. cc;
                },
                ran_first e.item refl
                    (ap (due_items i.stats.total_ticks) list
                      ∙ ground (arith, now, ap (λ l. e.item ∷ l) (sym items)))
                    had,
              )
        ]
      ]
