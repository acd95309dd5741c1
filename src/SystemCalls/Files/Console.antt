-- ===== src/SystemCalls/Files/Console.antt =====
-- A Read of the console does not end.
use nach_osx.Prelude.{
  ltb, ◌==◌, if◌then◌else◌, Bool-cases, length, get_or, pos, Outcome, ok, ok-injective, >>=-eq-ok,
  ℕ, zero, suc, ◌+◌, ◌≤◌, max, ◌≡◌, sym, ap, ◌∙◌, ◌≢◌, inl, inr, Bool, true, false, not, ◌&&◌, ◌||◌,
  List, arith,
}
use nach_osx.Execution.{reg, read_register}
use nach_osx.SystemCalls.{Host, System, new_chars, store_char, load_char, get_reg, write_user}
use nach_osx.SystemCalls.Files.{newline, console_loop, console_copy, read_console, nachos_read}
use nach_osx.SystemCalls.Buffers.{load_char_lem, store_char_lem, new_chars_lem}

-- No value comes of it: it stops the kernel, or reads or writes outside an array.
abbrev pub Fails : {A : Type 0} → Outcome A → Type 0
Fails {A} m = (a : A) → m ≢ ok a

length-maybe_stored :
    (b : Bool) (content : List ℕ) (position c : ℕ) (content' : List ℕ)
    → (if b then store_char content position c else ok content) ≡ ok content'
    → length content' ≡ length content
length-maybe_stored true content position c content' e =
    (store_char_lem content position c content' e).1
length-maybe_stored false content position c content' e = ap length (sym (ok-injective e))

length-stored_unless :
    (b : Bool) (content : List ℕ) (position c : ℕ) (content' : List ℕ)
    → (if b then ok content else store_char content position c) ≡ ok content'
    → length content' ≡ length content
length-stored_unless true content position c content' e = ap length (sym (ok-injective e))
length-stored_unless false content position c content' e =
    (store_char_lem content position c content' e).1

module _ {H : Type 0} (host : Host H) (fresh : ℕ → List ℕ) where
  console_loop-length :
      (n : ℕ) (s : System H) (size position char_buffer : ℕ) (content : List ℕ) (position' : ℕ)
      (content' : List ℕ) (s' : System H)
      → console_loop host fresh n s size position char_buffer content ≡ ok (position', content', s')
      → length content' ≡ length content
  unfolding console_loop
  console_loop-length zero s size position char_buffer content position' content' s' h =
      ap (λ q. length q.1) (sym (ok-injective h))
  console_loop-length (suc n) s size position char_buffer content position' content' s' h =
      let c : ℕ = get_or (host.read_unix (pos 1) 1 s.host).1 0 char_buffer in
      let (content₁, e₁, h₁) =
        >>=-eq-ok (if ltb 8 c && ltb c 128 then store_char content position c else ok content) _ _
          h in
      let kept = length-maybe_stored (ltb 8 c && ltb c 128) content position c content₁ e₁ in
      elim (Bool-cases (c == 0)) [
        | inl last ↦ ap (λ q. length q.1) (sym (ok-injective (rw last at h₁))) ∙ kept
        | inr more ↦
            console_loop-length n _ size (position + 1) c content₁ position' content' s'
              (rw more at h₁)
            ∙ kept
      ]

  -- The copy reads on to the end of the content and behind it.
  console_copy-Fails :
      (fuel : ℕ) (s : System H) (address size i : ℕ) (content : List ℕ)
      → length content ≤ size
      → Fails (console_copy host fresh fuel s address size i content)
  unfolding console_copy
  console_copy-Fails zero s address size i content small r h = cc
  console_copy-Fails (suc fuel) s address size i content small r h =
      let (c, e₁, h₁) = >>=-eq-ok (load_char content i) _ _ h in
      let (inside, _) = load_char_lem content i c e₁ in
      let on : (not (c == 0) || ltb i size) ≡ true = ground arith in
      let (s', e₂, h₂) = >>=-eq-ok (write_user s (address + i) c) _ _ (rw on at h₁) in
      console_copy-Fails fuel s' address size (i + 1) content small r h₂

  -- A Read with the descriptor of the console never gives a result, whatever is typed: the loop that
  -- copies the characters reads behind the end of `content`, where nothing stopped the kernel before.
  pub nachos_read-Fails :
      (s : System H)
      → ((n : ℕ) → length (fresh n) ≡ n)
      → reg s.cpu 6 ≡ 0
      → Fails (nachos_read host fresh s)
  unfolding nachos_read get_reg read_register read_console
  nachos_read-Fails s is_fresh console s' h =
      let size = reg s.cpu 5 in
      let (content, e₀, h₀) = >>=-eq-ok (new_chars fresh size) _ _ h in
      let (_, is) = new_chars_lem fresh size content e₀ in
      let h₀' = rw console at h₀ in
      let ((position, content₁, s₁), e₁, h₁) =
        >>=-eq-ok (console_loop host fresh (max 1 size) s size 0 0 content) _ _ h₀' in
      let (content₂, e₂, h₂) =
        >>=-eq-ok (if position == size then ok content₁ else store_char content₁ position newline) _
          _ h₁ in
      let (r, e₃, h₃) =
        >>=-eq-ok (console_copy host fresh (size + 2) s₁ (reg s.cpu 4) size 0 content₂) _ _ h₂ in
      let len₀ = ap length is ∙ is_fresh size in
      let len₁ = console_loop-length (max 1 size) s size 0 0 content position content₁ s₁ e₁ in
      let len₂ = length-stored_unless (position == size) content₁ position newline content₂ e₂ in
      console_copy-Fails (size + 2) s₁ (reg s.cpu 4) size 0 content₂ (omega arith) r e₃
