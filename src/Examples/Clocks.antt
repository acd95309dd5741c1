-- ===== src/Examples/Clocks.antt =====
-- A machine with the timer, which asks for a switch, and a disk interrupt.
use nach_osx.Prelude.{ok, ℕ, zero, suc, ◌+◌, ◌≡◌, refl, true, false, [], ◌∷◌, arith}
use nach_osx.SortedList.{ListElement}
use nach_osx.SortedList.Order.{Sorted}
use nach_osx.Interrupts.{
  PendingInterrupt, int_on, system_mode, timer_int, disk_int, Interrupt, Effect, Devices,
  timer_expired, one_tick, tick,
}
use nach_osx.Interrupts.Firing.{Orderly}
use nach_osx.Interrupts.Handlers.{run_handlers, Had}
use nach_osx.Interrupts.Ticking.{Ticked, after_tick, one_tick-Ticked}

-- Handler 0 is the timer's, handler 1 the disk's; the rest of the machine counts their calls.
abbrev calls : ℕ → ℕ → ℕ → ℕ → Effect ℕ
calls zero arg now s =
    timer_expired 0 0 false 0 (λ s. record { requests = []; wants_yield = true; rest = s + 1 }) s
calls (suc n) arg now s = record { requests = []; wants_yield = false; rest = s + 1 }

devices : Devices ℕ
unfolding timer_expired
devices = record { call = calls; delayed_load = λ s. s; yield = λ i s. ok (i, s) }

devices-Orderly : Orderly devices
unfolding devices timer_expired
devices-Orderly zero arg now s = (omega arith, tt)
devices-Orderly (suc n) arg now s = tt

abbrev disk_done : ListElement PendingInterrupt
disk_done = record {
  key = 105;
  item = record { handler = 1; arg = 7; when = 105; type = disk_int };
}

abbrev timer_out : ListElement PendingInterrupt
timer_out = record {
  key = 200;
  item = record { handler = 0; arg = 0; when = 200; type = timer_int };
}

abbrev clock : Interrupt
clock = record {
  level = int_on;
  pending = disk_done ∷ timer_out ∷ [];
  in_handler = false;
  yield_on_return = false;
  status = system_mode;
  stats = record { total_ticks = 95; idle_ticks = 0; system_ticks = 95; user_ticks = 0 };
}

clock-Sorted : Sorted clock.pending
clock-Sorted = (omega arith, (tt, tt))

one_tick-Ticked_example :
    (i' : Interrupt) × (s' : ℕ) × (one_tick devices 3 clock 0
      ≡ after_tick devices system_mode i' s')
    × Ticked clock i'
    × Had (run_handlers devices 105 (disk_done.item ∷ []) 0) 105 false i' s'
unfolding tick
one_tick-Ticked_example =
    one_tick-Ticked devices devices-Orderly 3 clock 0 refl refl refl clock-Sorted (omega arith)
