-- ===== src/SystemCalls/Files/Writing.antt =====
-- When a Write ends.
use nach_osx.Prelude.{
  ◌==◌, ==_iff, Bool-cases, length, get_or, ok, ok-injective, >>=-eq-ok, ℕ, zero, suc, ◌+◌, ◌%◌,
  ◌<◌, ◌≡◌, sym, ap, ◌∙◌, subst, ◌⊎◌, inl, inr, false, Option, none, some, List, arith,
}
use nach_osx.Words.{word_size, is_negative}
use nach_osx.Execution.{reg, read_register}
use nach_osx.SystemCalls.{
  Host, System, new_chars, store_char, store_int, load_char, get_reg, read_user,
}
use nach_osx.SystemCalls.Files.{newline, write_loop, rounds, nachos_write}
use nach_osx.SystemCalls.Buffers.{load_char_lem, store_char_lem, length-store_int, new_chars_lem}

module _ {H : Type 0} (host : Host H) (fresh : ℕ → List ℕ) where
  -- The loop ends at a newline, or after all its rounds.
  record Stopped (n i : ℕ) (content : List ℕ) (j : ℕ) (content' : List ℕ) : Type 0 where
    same_size : length content' ≡ length content
    place : (j < i + n) × (get_or content' j 0 ≡ newline) ⊎ (j ≡ i + n)

  length-stored :
      (value : Option ℕ) (content : List ℕ) (i : ℕ) (content' : List ℕ)
      → elim value [ none ↦ ok content | some v ↦ store_int content i v ] ≡ ok content'
      → length content' ≡ length content
  length-stored none content i content' h = ap length (sym (ok-injective h))
  length-stored (some v) content i content' h = length-store_int content i v content' h

  write_loop-Stopped :
      (n : ℕ) (s : System H) (address i : ℕ) (content : List ℕ) (j : ℕ) (content' : List ℕ)
      (s' : System H)
      → write_loop host fresh n s address i content ≡ ok (j, content', s')
      → Stopped n i content j content'
  unfolding write_loop
  write_loop-Stopped zero s address i content j content' s' h =
      let e = ok-injective h in
      record {
        same_size = ap (λ r. length r.1) (sym e);
        place = inr (ap (λ r. r.0) (sym e) ∙ omega arith);
      }
  write_loop-Stopped (suc n) s address i content j content' s' h =
      let (r, e₁, h₁) = >>=-eq-ok (read_user s (address + i)) _ _ h in
      let (content₁, e₂, h₂) =
        >>=-eq-ok (elim r.0 [ none ↦ ok content | some v ↦ store_int content i v ]) _ _ h₁ in
      let (c, e₃, h₃) = >>=-eq-ok (load_char content₁ i) _ _ h₂ in
      let (inside, is) = load_char_lem content₁ i c e₃ in
      let kept = length-stored r.0 content i content₁ e₂ in
      elim (Bool-cases (c == newline)) [
        | inl found ↦
            let e = ok-injective (rw found at h₃) in
            let here : i ≡ j = ap (λ q. q.0) e in
            let same : content₁ ≡ content' = ap (λ q. q.1) e in
            let ten : c ≡ newline = (==_iff c newline).0 found in
            record {
              same_size = ap length (sym same) ∙ kept;
              place = inl (omega arith, (λ k. get_or (sym same k) (sym here k) 0) ∙ (sym is ∙ ten));
            }
        | inr more ↦
            let q =
              write_loop-Stopped n r.1 address (i + 1) content₁ j content' s' (rw more at h₃) in
            record {
              same_size = q.same_size ∙ kept;
              place = elim q.place [
                | inl p ↦ inl (omega (arith, p.0), p.1)
                | inr e ↦ inr (omega (arith, e))
              ];
            }
      ]

  at_newline :
      (size j : ℕ) (content : List ℕ)
      → (j < 0 + rounds size) × (get_or content j 0 ≡ newline) ⊎ (j ≡ 0 + rounds size)
      → j + 1 < (size + 1) % word_size
      → size < word_size
      → is_negative ((size + 1) % word_size) ≡ false
      → (j < size) × (get_or content j 0 ≡ newline)
  at_newline size j content (inl p) bound word fits = (ground (arith, p.0), p.1)
  at_newline size j content (inr e) bound word fits = absurd (ground (arith, e))

  -- A Write ends only if its loop has found a newline among the `size` characters: without one, or
  -- with a size that is not positive, it writes behind the end of `content`, or the kernel stops.
  pub nachos_write-newline :
      (s s' : System H)
      → ((n : ℕ) → length (fresh n) ≡ n)
      → reg s.cpu 5 < word_size
      → nachos_write host fresh s ≡ ok s'
      → (j : ℕ) × (content : List ℕ) × (s₁ : System H) × (write_loop host fresh
            (rounds (reg s.cpu 5))
            s
            (reg s.cpu 4)
            0
            (fresh ((reg s.cpu 5 + 1) % word_size))
          ≡ ok (j, content, s₁))
        × (j < reg s.cpu 5)
        × (get_or content j 0 ≡ newline)
  unfolding nachos_write get_reg read_register
  nachos_write-newline s s' is_fresh word h =
      let size = reg s.cpu 5 in
      let (buffer, e₁, h₁) = >>=-eq-ok (new_chars fresh ((size + 1) % word_size)) _ _ h in
      let ((j, content, s₁), e₂, h₂) =
        >>=-eq-ok (write_loop host fresh (rounds size) s (reg s.cpu 4) 0 buffer) _ _ h₁ in
      let (content₂, e₃, h₃) = >>=-eq-ok (store_char content (j + 1) 0) _ _ h₂ in
      let (fits, is) = new_chars_lem fresh ((size + 1) % word_size) buffer e₁ in
      let q = write_loop-Stopped (rounds size) s (reg s.cpu 4) 0 buffer j content s₁ e₂ in
      let (inside, _) = store_char_lem content (j + 1) 0 content₂ e₃ in
      let bound : j + 1 < (size + 1) % word_size =
        omega (arith, q.same_size, ap length is, is_fresh ((size + 1) % word_size)) in
      let (before, ten) = at_newline size j content q.place bound word fits in
      (
        j,
        content,
        s₁,
        subst (λ b. write_loop host fresh (rounds size) s (reg s.cpu 4) 0 b ≡ ok (j, content, s₁))
            is e₂,
        before,
        ten,
      )
