-- ===== src/Examples/Consoles.antt =====
-- A console on a terminal that is a pair of lists: what has been typed, and what has been shown.
use nach_osx.Prelude.{
  if◌then◌else◌, length, ℤ, pos, ok, ℕ, ◌≡◌, refl, ap, Bool, true, false, List, [], ◌∷◌, ◌++◌,
}
use nach_osx.Interrupts.{new_interrupt, new_statistics}
use nach_osx.Console.{ConsoleMachine, Outside, eof}
use nach_osx.Console.Session.{
  Call, polls, written, gets, puts, run_calls, shown_by, characters_of, IsTerminal,
}
use nach_osx.Console.Session.Order.{run_calls-Kept}

abbrev Screen : Type 0
Screen = List ℕ × List ℕ

abbrev waiting : List ℕ → ℤ
waiting [] = pos 0
waiting (c ∷ cs) = pos 1

abbrev polled : List ℕ → Screen → ℤ × Screen
polled typed h = (waiting typed, h)

abbrev told : Bool → Screen → ℤ × Screen
told ready h = (if ready then pos 1 else pos 0, h)

abbrev typed_next : List ℕ → List ℕ → ℤ × List ℕ × Screen
typed_next [] shown = (pos 0, [], ([], shown))
typed_next (c ∷ cs) shown = (pos 1, c ∷ [], (cs, shown))

abbrev on_screen : Outside Screen
on_screen = record {
  open_existing = λ name h. (pos 3, h);
  open_truncated = λ name h. (pos 4, h);
  close_unix = λ fd h. (pos 0, h);
  select = λ fd wait h. (waiting h.0, h);
  read_unix = λ fd n h. typed_next h.0 h.1;
  write_unix = λ fd bytes h. (pos (length bytes), (h.0, h.1 ++ bytes));
  call = λ f a m. ok m;
  console_read_poll = 1;
  console_write_done = 2;
  this = 0;
}

waiting_lem :
    (h : Screen)
    → (ready : Bool) × (h' : Screen) × (polled h.0 h ≡ told ready h')
      × (h'.0 ≡ h.0)
      × (h'.1 ≡ h.1)
      × (ready ≡ true → (c : ℕ) × (cs : List ℕ) × (h.0 ≡ c ∷ cs))
waiting_lem ([], shown) = (false, ([], shown), refl, refl, refl, λ no. cc)
waiting_lem (c ∷ cs, shown) = (true, (c ∷ cs, shown), refl, refl, refl, λ _. (c, cs, refl))

on_screen-IsTerminal : IsTerminal on_screen (pos 0) (pos 1) (λ h. h.0) (λ h. h.1)
on_screen-IsTerminal = record {
  selects = λ wait h. waiting_lem h;
  reads = λ h c cs e. ((cs, h.1), ap (λ l. typed_next l h.1) e, refl, refl);
  writes = λ h c. ((h.0, h.1 ++ c ∷ []), refl, refl, refl);
  handlers = λ f a m. (m, refl, refl, refl, refl);
}

abbrev echoing : ConsoleMachine Screen
echoing = record {
  console = record {
    read_file_no = pos 0;
    write_file_no = pos 1;
    write_handler = 8;
    read_handler = 9;
    handler_arg = 0;
    put_busy = false;
    incoming = eof;
  };
  interrupt = new_interrupt new_statistics;
  num_console_chars_read = 0;
  num_console_chars_written = 0;
  host = (104 ∷ 105 ∷ 106 ∷ [], []);
}

abbrev echo : List Call
echo = polls ∷ gets ∷ puts 104 ∷ polls ∷ polls ∷ written ∷ gets ∷ puts 105 ∷ []

run_calls-Kept_example :
    (taken : List ℕ) × (m' : ConsoleMachine Screen) × (run_calls on_screen echo echoing
      ≡ ok (taken, m'))
    × (taken ++ characters_of (λ h. h.0) m' ≡ characters_of (λ h. h.0) echoing)
    × (m'.host.1 ≡ echoing.host.1 ++ shown_by echo)
run_calls-Kept_example =
    run_calls-Kept on_screen (pos 0) (pos 1) (λ h. h.0) (λ h. h.1) on_screen-IsTerminal echo echoing
      (record { reads_keys = refl; writes_screen = refl; no_eof = (refl, (refl, (refl, tt))) })
      (tt, (tt, (refl, (tt, (tt, (tt, (tt, (refl, tt))))))))
