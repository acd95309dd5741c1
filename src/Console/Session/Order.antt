-- ===== src/Console/Session/Order.antt =====
-- No character is lost, repeated or overtaken between the keyboard, the console and the display.
use nach_osx.Prelude.{append_assoc, ℤ, ok, ℕ, ◌≡◌, refl, sym, ap, ◌∙◌, subst, List, [], ◌∷◌, ◌++◌}
use nach_osx.Console.{ConsoleMachine, Outside, get_char}
use nach_osx.Console.Session.{
  Call, polls, written, gets, puts, none_for_eof, run_call, run_calls, busy_after, MayCall,
  TakesTurns, shown_by, characters_of, IsTerminal, IsReady, Kept,
}
use nach_osx.Console.Session.Steps.{
  append_nil, check_char_avail-Kept, write_done-Kept, put_char-Kept,
}

module _ {H : Type 0} (outside : Outside H) (keys screen : ℤ) (keyboard display : H → List ℕ)
    (t : IsTerminal outside keys screen keyboard display) where
  get_char-Kept :
      (m : ConsoleMachine H)
      → IsReady outside keys screen keyboard display m
      → (m' : ConsoleMachine H) × (run_call outside gets m
          ≡ ok (none_for_eof m.console.incoming, m'))
        × Kept outside keys screen keyboard display m.console.put_busy
            (none_for_eof m.console.incoming)
            []
            m
            m'
  unfolding run_call get_char
  get_char-Kept m r = (
    _,
    refl,
    record {
      ready = record {
        reads_keys = r.reads_keys;
        writes_screen = r.writes_screen;
        no_eof = r.no_eof;
      };
      characters = refl;
      on_display = sym (append_nil (display m.host));
      now_busy = refl;
    },
  )

  -- A call that may be made ends.
  run_call-Kept :
      (c : Call) (m : ConsoleMachine H)
      → IsReady outside keys screen keyboard display m
      → MayCall m.console.put_busy c
      → (taken : List ℕ) × (m' : ConsoleMachine H) × (run_call outside c m ≡ ok (taken, m'))
        × Kept outside keys screen keyboard display
            (busy_after m.console.put_busy c)
            taken
            (shown_by (c ∷ []))
            m
            m'
  unfolding run_call
  run_call-Kept polls m r may =
      let (m', e, kept) = check_char_avail-Kept outside keys screen keyboard display t m r in
      ([], m', rw e refl, kept)
  run_call-Kept written m r may =
      let (m', e, kept) = write_done-Kept outside keys screen keyboard display t m r in
      ([], m', rw e refl, kept)
  run_call-Kept gets m r may = let (m', e, kept) = get_char-Kept m r in (_, m', e, kept)
  run_call-Kept (puts c) m r may =
      let (m', e, kept) = put_char-Kept outside keys screen keyboard display t m c r may in
      ([], m', rw e refl, kept)

  shown_by-cons : (c : Call) (cs : List Call) → shown_by (c ∷ cs) ≡ shown_by (c ∷ []) ++ shown_by cs
  shown_by-cons polls cs = refl
  shown_by-cons written cs = refl
  shown_by-cons gets cs = refl
  shown_by-cons (puts c) cs = refl

  -- On a terminal where no byte 255 is typed, polls, calls of GetChar and of PutChar and ends of the output
  -- in any order in which PutChar waits for WriteDone run to their end. The characters that GetChar gave,
  -- the one in the console and those that are still to be read are, in this order, those that were there at
  -- the start; the display has what was put, in the same order, behind what it had.
  pub run_calls-Kept :
      (cs : List Call) (m : ConsoleMachine H)
      → IsReady outside keys screen keyboard display m
      → TakesTurns m.console.put_busy cs
      → (taken : List ℕ) × (m' : ConsoleMachine H) × (run_calls outside cs m ≡ ok (taken, m'))
        × (taken ++ characters_of keyboard m' ≡ characters_of keyboard m)
        × (display m'.host ≡ display m.host ++ shown_by cs)
  unfolding run_calls
  run_calls-Kept [] m r turns = ([], m, refl, refl, sym (append_nil (display m.host)))
  run_calls-Kept (c ∷ cs) m r turns =
      let (first, m₁, e₁, k₁) = run_call-Kept c m r turns.0 in
      let (rest, m₂, e₂, typed, shown) =
        run_calls-Kept cs m₁ k₁.ready (subst (λ b. TakesTurns b cs) (sym k₁.now_busy) turns.1) in
      (
        first ++ rest,
        m₂,
        rw (e₁, e₂) refl,
        append_assoc first rest (characters_of keyboard m₂)
            ∙ (ap (λ l. first ++ l) typed ∙ k₁.characters),
        shown
            ∙ (ap (λ l. l ++ shown_by cs) k₁.on_display
                ∙ (append_assoc (display m.host) (shown_by (c ∷ [])) (shown_by cs)
                    ∙ ap (λ l. display m.host ++ l) (sym (shown_by-cons c cs)))),
      )
