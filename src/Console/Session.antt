-- ===== src/Console/Session.antt =====
-- What is typed and what is shown while a console is used.
--
-- The kernel polls, takes characters and puts them, and WriteDone comes, in any order; a character that is
-- EOF stands for none and is not kept.
pub mod Steps
pub mod Order
use nach_osx.Prelude.{
  ◌==◌, if◌then◌else◌, ℤ, pos, Outcome, ok, ◌>>=◌, ◌>>◌, ℕ, ◌≡◌, Bool, true, false, List, [], ◌∷◌,
  ◌++◌,
}
use nach_osx.Console.{
  ConsoleMachine, Outside, eof, check_char_avail, write_done, get_char, put_char,
}

pub data Call : Type 0 where
  polls written gets : Call
  puts : ℕ → Call

abbrev pub none_for_eof : ℕ → List ℕ
none_for_eof c = if c == eof then [] else c ∷ []

-- The characters that a call takes, with the machine behind it.
pub run_call :
    {H : Type 0} → Outside H → Call → ConsoleMachine H → Outcome (List ℕ × ConsoleMachine H)
run_call outside polls m = do m' ← check_char_avail outside m; ok ([], m')
run_call outside written m = do m' ← write_done outside m; ok ([], m')
run_call outside gets m = let (c, m') = get_char outside m in ok (none_for_eof c, m')
run_call outside (puts c) m = do m' ← put_char outside c m; ok ([], m')

pub run_calls :
    {H : Type 0} → Outside H → List Call → ConsoleMachine H → Outcome (List ℕ × ConsoleMachine H)
unfolding run_call
run_calls outside [] m = ok ([], m)
run_calls outside (c ∷ cs) m = do
  (taken, m') ← run_call outside c m
  (further, m'') ← run_calls outside cs m'
  ok (taken ++ further, m'')

-- Whether a character is being shown after the call.
abbrev pub busy_after : Bool → Call → Bool
busy_after busy polls = busy
busy_after busy written = false
busy_after busy gets = busy
busy_after busy (puts c) = true

-- A character is put only when none is being shown.
abbrev pub MayCall : Bool → Call → Type 0
MayCall busy (puts c) = busy ≡ false
MayCall busy _ = Unit {0}

abbrev pub TakesTurns : Bool → List Call → Type 0
TakesTurns busy [] = Unit {0}
TakesTurns busy (c ∷ cs) = MayCall busy c × TakesTurns (busy_after busy c) cs

abbrev pub shown_by : List Call → List ℕ
shown_by [] = []
shown_by (puts c ∷ cs) = c ∷ shown_by cs
shown_by (polls ∷ cs) = shown_by cs
shown_by (written ∷ cs) = shown_by cs
shown_by (gets ∷ cs) = shown_by cs

abbrev pub NoEof : List ℕ → Type 0
NoEof [] = Unit {0}
NoEof (c ∷ cs) = ((c == eof) ≡ false) × NoEof cs

abbrev pub characters_of : {H : Type 0} → (H → List ℕ) → ConsoleMachine H → List ℕ
characters_of keyboard m = none_for_eof m.console.incoming ++ keyboard m.host

module _ {H : Type 0} (outside : Outside H) (keys screen : ℤ) (keyboard display : H → List ℕ) where
  -- The files of the host are a terminal: `keyboard` is what has been typed and not been read, `display`
  -- what has been written. Handlers run to their ends and leave the device and the terminal alone.
  pub record IsTerminal : Type 0 where
    pub selects :
        (wait : Bool) (h : H)
        → (ready : Bool) × (h' : H) × (outside.select keys wait h
            ≡ (if ready then pos 1 else pos 0, h'))
          × (keyboard h' ≡ keyboard h)
          × (display h' ≡ display h)
          × (ready ≡ true → (c : ℕ) × (cs : List ℕ) × (keyboard h ≡ c ∷ cs))
    pub reads :
        (h : H) (c : ℕ) (cs : List ℕ)
        → keyboard h ≡ c ∷ cs
        → (h' : H) × (outside.read_unix keys 1 h ≡ (pos 1, c ∷ [], h'))
          × (keyboard h' ≡ cs)
          × (display h' ≡ display h)
    pub writes :
        (h : H) (c : ℕ)
        → (h' : H) × (outside.write_unix screen (c ∷ []) h ≡ (pos 1, h'))
          × (keyboard h' ≡ keyboard h)
          × (display h' ≡ display h ++ c ∷ [])
    pub handlers :
        (f a : ℕ) (m : ConsoleMachine H)
        → (m' : ConsoleMachine H) × (outside.call f a m ≡ ok m')
          × (m'.console ≡ m.console)
          × (keyboard m'.host ≡ keyboard m.host)
          × (display m'.host ≡ display m.host)

  -- The console uses the terminal, and nothing that is EOF has been typed.
  pub record IsReady (m : ConsoleMachine H) : Type 0 where
    pub reads_keys : m.console.read_file_no ≡ keys
    pub writes_screen : m.console.write_file_no ≡ screen
    pub no_eof : NoEof (keyboard m.host)

  -- From `m` to `m'` the characters `taken` were taken and `shown` were shown.
  pub record Kept (busy : Bool) (taken shown : List ℕ) (m m' : ConsoleMachine H) : Type 0 where
    pub ready : IsReady m'
    pub characters : taken ++ characters_of keyboard m' ≡ characters_of keyboard m
    pub on_display : display m'.host ≡ display m.host ++ shown
    pub now_busy : m'.console.put_busy ≡ busy
