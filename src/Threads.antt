-- ===== src/Threads.antt =====
-- threads/thread.cc, threads/scheduler.cc and threads/synch.cc: threads, the ready list, and a monitor of
-- one lock and one condition variable, which the threads share.
--
-- Each operation runs with interrupts off from its first line to its last, or to the line at which
-- Thread::Sleep or Thread::Yield switches to another thread; `stage` says where each thread stands in
-- its code, and so where it goes on after the switch. SetLevel(IntOn) is where the timer may make
-- a thread yield, so a call that turns interrupts on twice has a stage between the two.
-- Threads are numbers. `threads t` is the status of thread t, `none` when there is no such thread, also
-- after its deletion; a call on such a thread is outside what the language defines (overrun).
-- With no ready thread Sleep calls Interrupt::Idle, which halts a machine that has no interrupt
-- pending: that end is `abort` here, where no device wakes a thread.
pub mod Places
pub mod Switching
pub mod Scheduling
pub mod Waiting
pub mod Releasing
pub mod Monitor
pub mod Reachable
pub mod Fairness
use nach_osx.Prelude.{
  ◌==◌, if◌then◌else◌, Outcome, ok, abort, overrun, ◌>>=◌, ◌>>◌, check, ℕ, ◌+◌, ◌-◌, Bool, true,
  false, not, ◌&&◌, Option, none, some, List, [], ◌∷◌,
}
use nach_osx.SortedList.{ListElement, append, remove}

pub data ThreadStatus : Type 0 where
  just_created : ThreadStatus
  running : ThreadStatus
  ready : ThreadStatus
  blocked : ThreadStatus

-- at_root: not started, so in ThreadRoot. acquiring: asleep in the P of Acquire. entered: P has returned.
-- inside: Acquire has returned. leaving: the V of Release has returned. waiting: asleep in Wait.
-- reacquiring: asleep in the P of the Acquire in Wait. finished: asleep in Finish.
pub data Stage : Type 0 where
  at_root : Stage
  outside : Stage
  acquiring : Stage
  entered : Stage
  inside : Stage
  leaving : Stage
  waiting : Stage
  reacquiring : Stage
  finished : Stage

pub record Semaphore : Type 0 where
  pub value : ℕ
  pub queue : List (ListElement ℕ)

pub record Lock : Type 0 where
  pub sem : Semaphore
  pub is_held : Bool
  pub owner : Option ℕ

pub record System : Type 0 where
  pub current_thread : ℕ
  pub threads : ℕ → Option ThreadStatus
  pub stage : ℕ → Stage
  pub ready_list : List (ListElement ℕ)
  pub thread_to_be_destroyed : Option ℕ
  pub lock : Lock
  pub hilos : List (ListElement ℕ)

abbrev pub put {ℓ} : {A : Type ℓ} → (ℕ → A) → ℕ → A → ℕ → A
put f t a u = if t == u then a else f u

abbrev pub at_stage : Stage → System → System
at_stage s w = record w { stage = put w.stage w.current_thread s }

abbrev pub exists : Option ThreadStatus → Outcome (Unit {0})
exists none = overrun
exists (some s) = ok tt

unfoldable pub set_status : ℕ → ThreadStatus → System → Outcome System
set_status t s w = do exists (w.threads t); ok (record w { threads = put w.threads t (some s) })

-- new Thread, at an address where there is none.
unfoldable pub new_thread : ℕ → System → System
new_thread t w = record w {
  threads = put w.threads t (some just_created);
  stage = put w.stage t at_root;
}

unfoldable pub ready_to_run : ℕ → System → Outcome System
unfolding set_status
ready_to_run t w = do
  w' ← set_status t ready w
  ok (record w' { ready_list = append w'.ready_list t })

unfoldable pub find_next_to_run : System → Option ℕ × System
find_next_to_run w =
    let (next, rest) = remove w.ready_list in (next, record w { ready_list = rest })

unfoldable pub delete_thread : Option ℕ → System → Outcome System
delete_thread none w = ok w
delete_thread (some t) w = do
  check (not (t == w.current_thread))
  ok (record w { threads = put w.threads t none; thread_to_be_destroyed = none })

-- What the thread that SWITCH goes to does first: a new thread starts in ThreadRoot and turns
-- interrupts on, any other goes on behind its own call of SWITCH, in Scheduler::Run.
unfoldable pub after_switch : Stage → System → Outcome System
unfolding delete_thread
after_switch at_root w = ok (at_stage outside w)
after_switch s w = delete_thread w.thread_to_be_destroyed w

unfoldable pub run : ℕ → System → Outcome System
unfolding set_status after_switch
run next w = do
  w' ← set_status next running (record w { current_thread = next })
  after_switch (w'.stage next) w'

unfoldable pub fork : ℕ → System → Outcome System
unfolding ready_to_run
fork t w = ready_to_run t w

unfoldable pub yield_to : ℕ → Option ℕ × System → Outcome System
unfolding ready_to_run run
yield_to this (none, w) = ok w
yield_to this (some next, w) = do w' ← ready_to_run this w; run next w'

unfoldable pub yield : System → Outcome System
unfolding find_next_to_run yield_to
yield w = yield_to w.current_thread (find_next_to_run w)

unfoldable pub dispatch : Option ℕ × System → Outcome System
unfolding run
dispatch (none, w) = abort
dispatch (some next, w) = run next w

unfoldable pub sleep : System → Outcome System
unfolding set_status find_next_to_run dispatch
sleep w = do w' ← set_status w.current_thread blocked w; dispatch (find_next_to_run w')

pub finish : System → Outcome System
unfolding sleep
finish w = sleep (at_stage finished (record w { thread_to_be_destroyed = some w.current_thread }))

unfoldable pub new_semaphore : ℕ → Semaphore
new_semaphore initial_value = record { value = initial_value; queue = [] }

abbrev pub with_sem : Semaphore → System → System
with_sem s w = record w {
  lock = record { sem = s; is_held = w.lock.is_held; owner = w.lock.owner };
}

-- A turn of the loop of Semaphore::P: the thread falls asleep at one stage, or leaves P at the other.
unfoldable pub p_turn : Stage → Stage → System → Outcome System
unfolding sleep
p_turn asleep through w =
    let s = w.lock.sem in
    if s.value == 0
    then sleep (at_stage asleep (with_sem (record s { queue = append s.queue w.current_thread }) w))
    else ok (at_stage through (with_sem (record s { value = s.value - 1 }) w))

abbrev pub wake : Option ℕ → System → Outcome System
wake none w = ok w
wake (some t) w = ready_to_run t w

unfoldable pub v : System → Outcome System
unfolding ready_to_run
v w =
    let (thread, rest) = remove w.lock.sem.queue in
    do
      w' ← wake thread (with_sem (record w.lock.sem { queue = rest }) w)
      ok (with_sem (record w'.lock.sem { value = w'.lock.sem.value + 1 }) w')

-- The loops of Broadcast and of Semaphore::Destroy, which empty a queue.
pub wake_all : List (ListElement ℕ) → System → Outcome System
unfolding ready_to_run
wake_all [] w = ok w
wake_all (e ∷ es) w = do w' ← ready_to_run e.item w; wake_all es w'

pub destroy : System → Outcome System
unfolding wake_all
destroy w = wake_all w.lock.sem.queue (with_sem (record w.lock.sem { queue = [] }) w)

unfoldable pub new_lock : Lock
unfolding new_semaphore
new_lock = record { sem = new_semaphore 1; is_held = false; owner = none }

abbrev pub take_lock : System → System
take_lock w = record w {
  lock = record { sem = w.lock.sem; is_held = true; owner = some w.current_thread };
}

abbrev pub drop_lock : System → System
drop_lock w = record w { lock = record { sem = w.lock.sem; is_held = false; owner = none } }

-- Lock::Acquire: P, and then the two assignments.
unfoldable pub acquire : System → Outcome System
unfolding p_turn
acquire w = p_turn acquiring entered w

unfoldable pub set_owner : System → System
set_owner w = at_stage inside (take_lock w)

-- Lock::Release: V, and then the two assignments.
unfoldable pub release : System → Outcome System
unfolding v
release w = do w' ← v w; ok (at_stage leaving w')

unfoldable pub clear_owner : System → System
clear_owner w = at_stage outside (drop_lock w)

unfoldable pub same_thread : ℕ → Option ℕ → Bool
same_thread t none = false
same_thread t (some u) = t == u

unfoldable pub is_held_by_current_thread : System → Bool
unfolding same_thread
is_held_by_current_thread w = w.lock.is_held && same_thread w.current_thread w.lock.owner

-- Condition::Wait up to the switch.
pub wait : System → Outcome System
unfolding v sleep
wait w = do
  w₁ ← v w
  let w₂ = drop_lock w₁
  sleep (at_stage waiting (record w₂ { hilos = append w₂.hilos w₂.current_thread }))

-- Condition::Wait from the switch on: a turn of the P of its Acquire and, when P returns, the rest.
pub wait_again : System → Outcome System
unfolding p_turn
wait_again w = do
  w' ← p_turn reacquiring inside w
  ok (if w.lock.sem.value == 0 then w' else take_lock w')

pub signal : System → Outcome System
unfolding ready_to_run
signal w = let (thread, rest) = remove w.hilos in wake thread (record w { hilos = rest })

pub broadcast : System → Outcome System
unfolding wake_all
broadcast w = wake_all w.hilos (record w { hilos = [] })
