-- ===== src/Interrupts/Handlers.antt =====
-- What the handlers of several interrupts do, one behind the other.
use nach_osx.Prelude.{ℕ, ◌<◌, ◌≡◌, Bool, false, ◌||◌, List, [], ◌∷◌, ◌++◌, arith}
use nach_osx.SortedList.{ListElement}
use nach_osx.Interrupts.{PendingInterrupt, Interrupt, Request, Effect, Devices}
use nach_osx.Interrupts.Pending.{Has, AllLater, AllAsked}

-- The handlers of the interrupts `xs`, called at time `now`: all their requests, whether one of them asks for
-- a switch, and the rest of the machine behind the last.
abbrev pub run_handlers : {S : Type 0} → Devices S → ℕ → List PendingInterrupt → S → Effect S
run_handlers d now [] s = record { requests = []; wants_yield = false; rest = s }
run_handlers d now (x ∷ xs) s =
    let e = d.call x.handler x.arg now (d.delayed_load s) in
    let r = run_handlers d now xs e.rest in
    record {
      requests = e.requests ++ r.requests;
      wants_yield = e.wants_yield || r.wants_yield;
      rest = r.rest;
    }

-- At time `now`, where `old` says whether a switch was wanted before, handlers had the effect `e` and left
-- `i'` and `s'`.
pub record Had {S : Type 0} (e : Effect S) (now : ℕ) (old : Bool) (i' : Interrupt) (s' : S)
    : Type 0 where
  pub rest_after : s' ≡ e.rest
  pub switch : i'.yield_on_return ≡ (old || e.wants_yield)
  pub asked : AllAsked now e.requests i'.pending

pub AllAsked-append :
    (now : ℕ) (rs qs : List Request) (es : List (ListElement PendingInterrupt))
    → AllAsked now rs es
    → AllAsked now qs es
    → AllAsked now (rs ++ qs) es
AllAsked-append now [] qs es a b = b
AllAsked-append now (r ∷ rs) qs es a b = (a.0, AllAsked-append now rs qs es a.1 b)

-- What is asked for is not due, so that it stays.
pub AllAsked-kept :
    (now : ℕ) (rs : List Request) (es es' : List (ListElement PendingInterrupt))
    → AllLater rs
    → ((x : ListElement PendingInterrupt) → now < x.key → Has x es → Has x es')
    → AllAsked now rs es
    → AllAsked now rs es'
AllAsked-kept now [] es es' later kept a = tt
AllAsked-kept now (r ∷ rs) es es' later kept a =
    (kept _ (omega (arith, later.0)) a.0, AllAsked-kept now rs es es' later.1 kept a.1)
