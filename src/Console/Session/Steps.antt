-- ===== src/Console/Session/Steps.antt =====
-- Each operation of the console keeps the characters in order.
use nach_osx.Prelude.{
  ◌==◌, Bool-cases, ℤ, Outcome, ok, ℕ, ◌+◌, ◌≡◌, refl, sym, ap, ◌∙◌, subst, inl, inr, Bool, true,
  false, List, [], ◌∷◌, ◌++◌,
}
use nach_osx.Interrupts.{Interrupt, IntType, schedule, is_idle, console_read_int, console_write_int}
use nach_osx.Console.{
  ConsoleMachine, Outside, eof, console_time, poll_file, read, write_file, take_char,
  check_char_avail, write_done, put_char,
}
use nach_osx.Console.Session.{none_for_eof, NoEof, IsTerminal, IsReady, Kept}

pub append_nil : (xs : List ℕ) → xs ++ [] ≡ xs
append_nil [] = refl
append_nil (x ∷ xs) = ap (λ l. x ∷ l) (append_nil xs)

NoEof-cons : (c : ℕ) (cs ds : List ℕ) → ds ≡ c ∷ cs → NoEof ds → ((c == eof) ≡ false) × NoEof cs
NoEof-cons c cs ds e v = subst NoEof e v

empty_lem : (c : ℕ) → (c == eof) ≡ true → none_for_eof c ≡ []
empty_lem c e = rw e refl

full_lem : (c : ℕ) → (c == eof) ≡ false → none_for_eof c ≡ c ∷ []
full_lem c e = rw e refl

module _ {H : Type 0} (outside : Outside H) (keys screen : ℤ) (keyboard display : H → List ℕ)
    (t : IsTerminal outside keys screen keyboard display) where
  abbrev pub Result : Outcome (ConsoleMachine H) → Bool → List ℕ → ConsoleMachine H → Type 0
  Result run busy shown m =
      (m' : ConsoleMachine H) × (run ≡ ok m')
      × Kept outside keys screen keyboard display busy [] shown m m'

  -- The device with a character in it, and a host with the same on the terminal but for `shown`.
  still :
      (m m' : ConsoleMachine H) (shown : List ℕ)
      → IsReady outside keys screen keyboard display m
      → m'.console.read_file_no ≡ m.console.read_file_no
      → m'.console.write_file_no ≡ m.console.write_file_no
      → m'.console.incoming ≡ m.console.incoming
      → keyboard m'.host ≡ keyboard m.host
      → display m'.host ≡ display m.host ++ shown
      → Kept outside keys screen keyboard display m'.console.put_busy [] shown m m'
  still m m' shown r e e' same typed more = record {
    ready = record {
      reads_keys = e ∙ r.reads_keys;
      writes_screen = e' ∙ r.writes_screen;
      no_eof = subst NoEof (sym typed) r.no_eof;
    };
    characters = λ i. none_for_eof (same i) ++ typed i;
    on_display = more;
    now_busy = refl;
  }

  -- CheckCharAvail, where a character is taken from the keyboard.
  take_char-Kept :
      (m : ConsoleMachine H) (c : ℕ) (cs : List ℕ)
      → IsReady outside keys screen keyboard display m
      → (m.console.incoming == eof) ≡ true
      → keyboard m.host ≡ c ∷ cs
      → Result (take_char outside m) m.console.put_busy [] m
  unfolding take_char read
  take_char-Kept m c cs r empty typed =
      let (h', e, k, d) = t.reads m.host c cs typed in
      let e₁ = ap (λ fd. outside.read_unix fd 1 m.host) r.reads_keys ∙ e in
      let taken : ConsoleMachine H = record m {
        console = record m.console { incoming = c };
        num_console_chars_read = m.num_console_chars_read + 1;
        host = h';
      } in
      let (m', ran, same, k', d') = t.handlers m.console.read_handler m.console.handler_arg taken in
      let (first, rest) = NoEof-cons c cs (keyboard m.host) typed r.no_eof in
      (
        m',
        rw e₁ ran,
        record {
          ready = record {
            reads_keys = ap (λ x. x.read_file_no) same ∙ r.reads_keys;
            writes_screen = ap (λ x. x.write_file_no) same ∙ r.writes_screen;
            no_eof = subst NoEof (sym (k' ∙ k)) rest;
          };
          characters =
              (λ i. none_for_eof (same i).incoming ++ (k' ∙ k) i)
              ∙ (ap (λ l. l ++ cs) (full_lem c first)
                  ∙ (sym typed
                      ∙ ap (λ l. l ++ keyboard m.host) (sym (empty_lem m.console.incoming empty))));
          on_display = d' ∙ (d ∙ sym (append_nil (display m.host)));
          now_busy = ap (λ x. x.put_busy) same;
        },
      )

  -- What holds from a machine with the same console and terminal.
  from_here :
      (run : Outcome (ConsoleMachine H)) (busy : Bool) (m m₂ : ConsoleMachine H)
      → m₂.console ≡ m.console
      → keyboard m₂.host ≡ keyboard m.host
      → display m₂.host ≡ display m.host
      → Result run busy [] m₂
      → Result run busy [] m
  from_here run busy m m₂ same k d (m', ran, kept) = (
    m',
    ran,
    record {
      ready = kept.ready;
      now_busy = kept.now_busy;
      characters = kept.characters ∙ (λ i. none_for_eof (same i).incoming ++ k i);
      on_display = kept.on_display ∙ ap (λ l. l ++ []) d;
    },
  )

  scheduled :
      (f a : ℕ) (type : IntType) (i : Interrupt)
      → (i' : Interrupt) × (schedule f a console_time type i ≡ ok i')
  unfolding schedule
  scheduled f a type i = (_, refl)

  pub check_char_avail-Kept :
      (m : ConsoleMachine H)
      → IsReady outside keys screen keyboard display m
      → Result (check_char_avail outside m) m.console.put_busy [] m
  unfolding check_char_avail poll_file
  check_char_avail-Kept m r =
      let nothing = sym (append_nil (display m.host)) in
      let (i', e₀) =
        scheduled outside.console_read_poll outside.this console_read_int m.interrupt in
      let m₁ : ConsoleMachine H = record m { interrupt = i' } in
      elim (Bool-cases (m.console.incoming == eof)) [
        | inr full ↦ (m₁, rw (e₀, full) refl, still m m₁ [] r refl refl refl refl nothing)
        | inl empty ↦
            let (ready, h', e, k, d, waiting) = t.selects (is_idle i'.status) m.host in
            let e₁ = ap (λ fd. outside.select fd (is_idle i'.status) m.host) r.reads_keys ∙ e in
            let m₂ : ConsoleMachine H = record m₁ { host = h' } in
            elim (Bool-cases ready) [
              | inr never ↦ (
                m₂,
                rw (e₀, empty, e₁, never) refl,
                still m m₂ [] r refl refl refl k (d ∙ nothing),
              )
              | inl there ↦
                  let (c, cs, typed) = waiting there in
                  let (m', ran, kept) =
                    from_here (take_char outside m₂) m.console.put_busy m m₂ refl k d (
                      take_char-Kept m₂ c cs
                        (record {
                          reads_keys = r.reads_keys;
                          writes_screen = r.writes_screen;
                          no_eof = subst NoEof (sym k) r.no_eof;
                        })
                        empty (k ∙ typed)) in
                  (m', rw (e₀, empty, e₁, there) ran, kept)
            ]
      ]

  pub write_done-Kept :
      (m : ConsoleMachine H)
      → IsReady outside keys screen keyboard display m
      → Result (write_done outside m) false [] m
  unfolding write_done
  write_done-Kept m r =
      let done : ConsoleMachine H = record m {
        console = record m.console { put_busy = false };
        num_console_chars_written = m.num_console_chars_written + 1;
      } in
      let (m', ran, same, k, d) = t.handlers m.console.write_handler m.console.handler_arg done in
      let kept =
        still m m' [] r (ap (λ x. x.read_file_no) same) (ap (λ x. x.write_file_no) same)
          (ap (λ x. x.incoming) same) k (d ∙ sym (append_nil (display m.host))) in
      (
        m',
        ran,
        record {
          ready = kept.ready;
          characters = kept.characters;
          on_display = kept.on_display;
          now_busy = ap (λ x. x.put_busy) same;
        },
      )

  pub put_char-Kept :
      (m : ConsoleMachine H) (c : ℕ)
      → IsReady outside keys screen keyboard display m
      → m.console.put_busy ≡ false
      → Result (put_char outside c m) true (c ∷ []) m
  unfolding put_char write_file
  put_char-Kept m c r free =
      let (h', e, k, d) = t.writes m.host c in
      let e₁ = ap (λ fd. outside.write_unix fd (c ∷ []) m.host) r.writes_screen ∙ e in
      let (i', e₀) =
        scheduled outside.console_write_done outside.this console_write_int m.interrupt in
      let m' : ConsoleMachine H = record m {
        console = record m.console { put_busy = true };
        interrupt = i';
        host = h';
      } in
      (m', rw (free, e₁, e₀) refl, still m m' (c ∷ []) r refl refl refl k d)
