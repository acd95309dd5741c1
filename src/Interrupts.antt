-- ===== src/Interrupts.antt =====
-- machine/interrupt.cc, machine/interrupt.h, machine/timer.cc and the clocks of machine/stats.h: the
-- simulation of the interrupt hardware.
--
-- A handler is a C function and its argument, two numbers here. `call` of `Devices` says what a handler
-- does: the interrupts that it schedules, whether it asks for a switch, and the rest of the machine, a
-- value of type `S`, behind it. A handler may read the clock, and cannot set it.
pub mod Pending
pub mod Handlers
pub mod Firing
pub mod Loop
pub mod Ticking
use nach_osx.Prelude.{
  ltb, if◌then◌else◌, Outcome, ok, overrun, ◌>>=◌, ◌>>◌, check, ℕ, zero, suc, ◌+◌, ◌-◌, ◌*◌, ◌%◌,
  Bool, true, false, not, ◌&&◌, ◌||◌, Option, none, some, List, [], ◌∷◌,
}
use nach_osx.SortedList.{ListElement, is_empty, sorted_insert, sorted_remove}

pub data IntStatus : Type 0 where
  int_off : IntStatus
  int_on : IntStatus

pub data MachineStatus : Type 0 where
  idle_mode : MachineStatus
  system_mode : MachineStatus
  user_mode : MachineStatus

pub data IntType : Type 0 where
  timer_int : IntType
  disk_int : IntType
  console_write_int : IntType
  console_read_int : IntType
  network_send_int : IntType
  network_recv_int : IntType

pub record PendingInterrupt : Type 0 where
  pub handler : ℕ
  pub arg : ℕ
  pub when : ℕ
  pub type : IntType

pub record Statistics : Type 0 where
  pub total_ticks : ℕ
  pub idle_ticks : ℕ
  pub system_ticks : ℕ
  pub user_ticks : ℕ

pub new_statistics : Statistics
new_statistics = record { total_ticks = 0; idle_ticks = 0; system_ticks = 0; user_ticks = 0 }

abbrev pub user_tick : ℕ
user_tick = 1

abbrev pub system_tick : ℕ
system_tick = 10

abbrev pub timer_ticks : ℕ
timer_ticks = 100

pub record Interrupt : Type 0 where
  pub level : IntStatus
  pub pending : List (ListElement PendingInterrupt)
  pub in_handler : Bool
  pub yield_on_return : Bool
  pub status : MachineStatus
  pub stats : Statistics

pub new_interrupt : Statistics → Interrupt
new_interrupt stats = record {
  level = int_off;
  pending = [];
  in_handler = false;
  yield_on_return = false;
  status = system_mode;
  stats = stats;
}

abbrev pub change_level : IntStatus → Interrupt → Interrupt
change_level now i = record i { level = now }

abbrev pub is_off : IntStatus → Bool
is_off int_off = true
is_off int_on = false

abbrev pub is_system : MachineStatus → Bool
is_system system_mode = true
is_system _ = false

abbrev pub is_idle : MachineStatus → Bool
is_idle idle_mode = true
is_idle _ = false

abbrev pub is_timer : IntType → Bool
is_timer timer_int = true
is_timer _ = false

pub yield_on_return : Interrupt → Interrupt
yield_on_return i = record i { yield_on_return = true }

unfoldable pub schedule : ℕ → ℕ → ℕ → IntType → Interrupt → Outcome Interrupt
schedule handler arg from_now type i =
    let when = i.stats.total_ticks + from_now in
    let to_occur : PendingInterrupt = record {
      handler = handler;
      arg = arg;
      when = when;
      type = type;
    } in
    do check (ltb 0 from_now); ok (record i { pending = sorted_insert i.pending to_occur when })

-- A call of Schedule that a handler makes.
pub record Request : Type 0 where
  pub handler : ℕ
  pub arg : ℕ
  pub from_now : ℕ
  pub type : IntType

pub schedule_all : List Request → Interrupt → Outcome Interrupt
unfolding schedule
schedule_all [] i = ok i
schedule_all (r ∷ rs) i = do i' ← schedule r.handler r.arg r.from_now r.type i; schedule_all rs i'

pub record Effect (S : Type 0) : Type 0 where
  pub requests : List Request
  pub wants_yield : Bool
  pub rest : S

-- The handlers, by number, argument and time; the pending load that is dropped before a handler runs
-- (Machine::DelayedLoad); and Thread::Yield.
pub record Devices (S : Type 0) : Type 0 where
  pub call : ℕ → ℕ → ℕ → S → Effect S
  pub delayed_load : S → S
  pub yield : Interrupt → S → Outcome (Interrupt × S)

-- The clock moves to the time at which an interrupt is to occur.
abbrev pub advance : Statistics → ℕ → Statistics
advance t when = record t { idle_ticks = t.idle_ticks + (when - t.total_ticks); total_ticks = when }

unfoldable pub tick : MachineStatus → Statistics → Statistics
tick system_mode t = record t {
  total_ticks = t.total_ticks + system_tick;
  system_ticks = t.system_ticks + system_tick;
}
tick _ t = record t {
  total_ticks = t.total_ticks + user_tick;
  user_ticks = t.user_ticks + user_tick;
}

module _ {S : Type 0} (d : Devices S) where
  -- A handler is called.
  pub fire : PendingInterrupt → Interrupt → S → Outcome (Interrupt × S)
  unfolding schedule_all
  fire to_occur i s =
      let old = i.status in
      let e = d.call to_occur.handler to_occur.arg i.stats.total_ticks (d.delayed_load s) in
      do
        i₁ ← schedule_all e.requests (record i { in_handler = true; status = system_mode })
        ok (
          record i₁ {
            yield_on_return = i₁.yield_on_return || e.wants_yield;
            status = old;
            in_handler = false;
          },
          e.rest,
        )

  -- CheckIfDue behind the tests of the clock: an idle machine does not run the timer alone.
  pub fire_or_quit : ListElement PendingInterrupt → Interrupt → S → Outcome (Bool × (Interrupt × S))
  unfolding fire
  fire_or_quit e i s =
      if (is_idle i.status && is_timer e.item.type) && is_empty i.pending
      then ok (false, (record i { pending = sorted_insert i.pending e.item e.key }, s))
      else (do r ← fire e.item i s; ok (true, r))

  pub check_due :
      Bool
      → Option (ListElement PendingInterrupt)
      → Interrupt
      → S
      → Outcome (Bool × (Interrupt × S))
  unfolding fire_or_quit
  check_due advance_clock none i s = ok (false, (i, s))
  check_due advance_clock (some e) i s =
      if advance_clock && ltb i.stats.total_ticks e.key
      then fire_or_quit e (record i { stats = advance i.stats e.key }) s
      else if ltb i.stats.total_ticks e.key
      then ok (false, (record i { pending = sorted_insert i.pending e.item e.key }, s))
      else fire_or_quit e i s

  pub check_if_due : Bool → Interrupt → S → Outcome (Bool × (Interrupt × S))
  unfolding check_due
  check_if_due advance_clock i s =
      let (to_occur, rest) = sorted_remove i.pending in
      do check (is_off i.level); check_due advance_clock to_occur (record i { pending = rest }) s

  -- while (CheckIfDue(false)) ;
  pub check_loop : ℕ → Interrupt → S → Outcome (Interrupt × S)
  unfolding check_if_due
  check_loop zero i s = overrun
  check_loop (suc fuel) i s = do
    (fired, (i', s')) ← check_if_due false i s
    let rest = check_loop fuel i' s'
    if fired then rest else ok (i', s')

  pub switch_on_return : MachineStatus → Interrupt → S → Outcome (Interrupt × S)
  switch_on_return old i s =
      if i.yield_on_return
      then (do
        (i', s') ← d.yield (record i { yield_on_return = false; status = system_mode }) s
        ok (record i' { status = old }, s'))
      else ok (i, s)

  pub one_tick : ℕ → Interrupt → S → Outcome (Interrupt × S)
  unfolding tick check_loop switch_on_return
  one_tick fuel i s = do
    (i', s') ← check_loop fuel (change_level int_off (record i { stats = tick i.status i.stats })) s
    switch_on_return i.status (change_level int_on i') s'

  pub set_level : ℕ → IntStatus → Interrupt → S → Outcome (IntStatus × (Interrupt × S))
  unfolding one_tick
  set_level fuel now i s =
      let old = i.level in
      do
        check (is_off now || not i.in_handler)
        r ←
            (if not (is_off now) && is_off old
              then one_tick fuel (change_level now i) s
              else ok (change_level now i, s))
        ok (old, r)

  pub enable : ℕ → Interrupt → S → Outcome (Interrupt × S)
  unfolding set_level
  enable fuel i s = do (old, r) ← set_level fuel int_on i s; ok r

  -- `none` where Idle halts the machine.
  pub idle : ℕ → Interrupt → S → Outcome (Option (Interrupt × S))
  unfolding check_if_due check_loop
  idle fuel i s = do
    (fired, (i₁, s₁)) ← check_if_due true (record i { status = idle_mode }) s
    let rest = (do
      (i₂, s₂) ← check_loop fuel i₁ s₁
      ok (some (record i₂ { yield_on_return = false; status = system_mode }, s₂)))
    if fired then rest else ok none

-- The timer: a handler that schedules itself again, at a fixed distance or at a random one.
abbrev pub time_of_next_interrupt : Bool → ℕ → ℕ
time_of_next_interrupt randomize random =
    if randomize then 1 + random % (timer_ticks * 2) else timer_ticks

pub new_timer : ℕ → ℕ → Bool → ℕ → Interrupt → Outcome Interrupt
unfolding schedule
new_timer timer_handler this do_random random i =
    schedule timer_handler this (time_of_next_interrupt do_random random) timer_int i

unfoldable pub timer_expired : {S : Type 0} → ℕ → ℕ → Bool → ℕ → (S → Effect S) → S → Effect S
timer_expired timer_handler this randomize random handler s =
    let e = handler s in
    record e {
      requests =
          record {
            handler = timer_handler;
            arg = this;
            from_now = time_of_next_interrupt randomize random;
            type = timer_int;
          }
          ∷ e.requests;
    }
