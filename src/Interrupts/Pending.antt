-- ===== src/Interrupts/Pending.antt =====
-- The pending interrupts: which are due, and what Schedule and the loop's put-back do to them.
use nach_osx.Prelude.{
  if◌then◌else◌, ◌∙◌, ltb, leb, lt→ltb, Bool-cases, ok, ℕ, ◌+◌, ◌<◌, ◌≡◌, refl, ◌⊎◌, inl, inr, Bool,
  true, false, List, [], ◌∷◌, arith,
}
use nach_osx.SortedList.{ListElement, new_element, insert_behind, sorted_insert}
use nach_osx.SortedList.Order.{Sorted, sorted_insert-Sorted}
use nach_osx.Interrupts.{PendingInterrupt, Interrupt, Request, schedule, schedule_all}

abbrev pub one : Bool → ℕ
one true = 1
one false = 0

-- How many interrupts are to occur at `now` or before.
abbrev pub due : ℕ → List (ListElement PendingInterrupt) → ℕ
due now [] = 0
due now (e ∷ es) = one (leb e.key now) + due now es

-- Those interrupts, in their order.
abbrev pub due_items : ℕ → List (ListElement PendingInterrupt) → List PendingInterrupt
due_items now [] = []
due_items now (e ∷ es) =
    let rest = due_items now es in if leb e.key now then e.item ∷ rest else rest

abbrev pub Has : ListElement PendingInterrupt → List (ListElement PendingInterrupt) → Type 0
Has x [] = false ≡ true
Has x (e ∷ es) = (x ≡ e) ⊎ Has x es

-- The requests of a handler are for a later time.
abbrev pub AllLater : List Request → Type 0
AllLater [] = Unit {0}
AllLater (r ∷ rs) = (0 < r.from_now) × AllLater rs

pub due_items-none :
    (now : ℕ) (es : List (ListElement PendingInterrupt)) → due now es ≡ 0 → due_items now es ≡ []
due_items-none now [] e = refl
due_items-none now (x ∷ es) e = ground (arith, due_items-none now es)

due_items-insert_behind :
    (now : ℕ) (ptr : ListElement PendingInterrupt) (es : List (ListElement PendingInterrupt))
    (x : ListElement PendingInterrupt)
    → now < x.key
    → due_items now (insert_behind ptr es x) ≡ due_items now (ptr ∷ es)
unfolding insert_behind
due_items-insert_behind now ptr [] x later = ground arith
due_items-insert_behind now ptr (next ∷ rest) x later =
    ground (arith, due_items-insert_behind now next rest x later)

due_items-sorted_insert :
    (now : ℕ) (es : List (ListElement PendingInterrupt)) (item : PendingInterrupt) (key : ℕ)
    → now < key
    → due_items now (sorted_insert es item key) ≡ due_items now es
unfolding sorted_insert
due_items-sorted_insert now [] item key later = ground arith
due_items-sorted_insert now (first ∷ rest) item key later =
    ground (arith, due_items-insert_behind now first rest (new_element item key) later)

due-insert_behind :
    (now : ℕ) (ptr : ListElement PendingInterrupt) (es : List (ListElement PendingInterrupt))
    (x : ListElement PendingInterrupt)
    → due now (insert_behind ptr es x) ≡ due now (ptr ∷ es) + one (leb x.key now)
unfolding insert_behind
due-insert_behind now ptr [] x = omega arith
due-insert_behind now ptr (next ∷ rest) x = ground (arith, due-insert_behind now next rest x)

pub due-sorted_insert :
    (now : ℕ) (es : List (ListElement PendingInterrupt)) (item : PendingInterrupt) (key : ℕ)
    → due now (sorted_insert es item key) ≡ due now es + one (leb key now)
unfolding sorted_insert
due-sorted_insert now [] item key = omega arith
due-sorted_insert now (first ∷ rest) item key =
    ground (arith, due-insert_behind now first rest (new_element item key))

Has-insert_behind :
    (x ptr : ListElement PendingInterrupt) (es : List (ListElement PendingInterrupt))
    (y : ListElement PendingInterrupt)
    → (x ≡ y) ⊎ Has x (ptr ∷ es)
    → Has x (insert_behind ptr es y)
unfolding insert_behind
Has-insert_behind x ptr [] y h = ground arith
Has-insert_behind x ptr (next ∷ rest) y h = elim (Bool-cases (ltb y.key next.key)) [
  | inl lt ↦ rw lt (ground arith)
  | inr ge ↦ ground (arith, ge, Has-insert_behind x next rest y)
]

pub Has-sorted_insert :
    (x : ListElement PendingInterrupt) (es : List (ListElement PendingInterrupt))
    (item : PendingInterrupt) (key : ℕ)
    → (x ≡ new_element item key) ⊎ Has x es
    → Has x (sorted_insert es item key)
unfolding sorted_insert
Has-sorted_insert x [] item key h = h
Has-sorted_insert x (first ∷ rest) item key h = elim (Bool-cases (ltb key first.key)) [
  | inl lt ↦ rw lt h
  | inr ge ↦ rw ge (Has-insert_behind x first rest (new_element item key) h)
]

-- The interrupt that a request at time `now` asks for.
abbrev pub asked_for : ℕ → Request → ListElement PendingInterrupt
asked_for now r =
    new_element
      (record { handler = r.handler; arg = r.arg; when = now + r.from_now; type = r.type })
      (now + r.from_now)

-- Each request has its interrupt.
abbrev pub AllAsked : ℕ → List Request → List (ListElement PendingInterrupt) → Type 0
AllAsked now [] es = Unit {0}
AllAsked now (r ∷ rs) es = Has (asked_for now r) es × AllAsked now rs es

-- `i'` is `i` with interrupts added that are not due.
pub record Scheduled (i i' : Interrupt) : Type 0 where
  pub same : i' ≡ record i { pending = i'.pending }
  pub sorted : Sorted i.pending → Sorted i'.pending
  pub items_same :
      due_items i.stats.total_ticks i'.pending ≡ due_items i.stats.total_ticks i.pending
  pub due_same : due i.stats.total_ticks i'.pending ≡ due i.stats.total_ticks i.pending
  pub kept : (x : ListElement PendingInterrupt) → Has x i.pending → Has x i'.pending

-- Requests for a later time are all accepted.
pub schedule_all-Scheduled :
    (rs : List Request) (i : Interrupt)
    → AllLater rs
    → (i' : Interrupt) × (schedule_all rs i ≡ ok i')
      × Scheduled i i'
      × AllAsked i.stats.total_ticks rs i'.pending
unfolding schedule_all schedule
schedule_all-Scheduled [] i later = (
  i,
  refl,
  record { same = refl; sorted = λ s. s; items_same = refl; due_same = refl; kept = λ x h. h },
  tt,
)
schedule_all-Scheduled (r ∷ rs) i later =
    let when = i.stats.total_ticks + r.from_now in
    let item : PendingInterrupt = record {
      handler = r.handler;
      arg = r.arg;
      when = when;
      type = r.type;
    } in
    let i₁ = record i { pending = sorted_insert i.pending item when } in
    let (i', e, u, asked) = schedule_all-Scheduled rs i₁ later.1 in
    (
      i',
      rw (lt→ltb 0 r.from_now later.0) e,
      record {
        same = u.same;
        sorted = λ s. u.sorted (sorted_insert-Sorted i.pending item when s);
        items_same =
            u.items_same
            ∙ due_items-sorted_insert i.stats.total_ticks i.pending item when
                (omega (arith, later.0));
        due_same =
            ground (arith, u.due_same, due-sorted_insert i.stats.total_ticks i.pending item when);
        kept = λ x h. u.kept x (Has-sorted_insert x i.pending item when (inr h));
      },
      (
        u.kept (asked_for i.stats.total_ticks r)
            (Has-sorted_insert _ i.pending item when (inl refl)),
        asked,
      ),
    )
