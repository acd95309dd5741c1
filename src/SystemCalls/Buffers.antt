-- ===== src/SystemCalls/Buffers.antt =====
-- The buffers that the system calls fill keep their size, and nothing is read behind their end.
use nach_osx.Prelude.{
  ltb, leb, ltb→lt, Bool-cases, length, get_or, length-overlay, length-set, ok, ok-injective, ℕ,
  ◌+◌, ◌%◌, ◌<◌, ◌≡◌, sym, ap, ◌∙◌, inl, inr, false, List,
}
use nach_osx.Words.{is_negative, to_bytes}
use nach_osx.SystemCalls.{new_chars, store_char, store_int, load_char}

pub load_char_lem :
    (buffer : List ℕ) (i c : ℕ)
    → load_char buffer i ≡ ok c
    → (i < length buffer) × (c ≡ get_or buffer i 0)
unfolding load_char
load_char_lem buffer i c h = elim (Bool-cases (ltb i (length buffer))) [
  | inl inside ↦ (ltb→lt _ _ inside, sym (ok-injective (rw inside at h)))
  | inr out ↦ cc (rw out at h)
]

pub store_char_lem :
    (buffer : List ℕ) (i value : ℕ) (buffer' : List ℕ)
    → store_char buffer i value ≡ ok buffer'
    → (i < length buffer) × (length buffer' ≡ length buffer)
unfolding store_char
store_char_lem buffer i value buffer' h = elim (Bool-cases (ltb i (length buffer))) [
  | inl inside ↦ (
    ltb→lt _ _ inside,
    ap length (sym (ok-injective (rw inside at h))) ∙ length-set buffer i (value % 256),
  )
  | inr out ↦ cc (rw out at h)
]

pub length-store_int :
    (buffer : List ℕ) (i value : ℕ) (buffer' : List ℕ)
    → store_int buffer i value ≡ ok buffer'
    → length buffer' ≡ length buffer
unfolding store_int
length-store_int buffer i value buffer' h = elim (Bool-cases (leb (i + 4) (length buffer))) [
  | inl inside ↦
      ap length (sym (ok-injective (rw inside at h))) ∙ length-overlay buffer i (to_bytes 4 value)
  | inr out ↦ cc (rw out at h)
]

pub new_chars_lem :
    (fresh : ℕ → List ℕ) (size : ℕ) (buffer : List ℕ)
    → new_chars fresh size ≡ ok buffer
    → (is_negative size ≡ false) × (buffer ≡ fresh size)
unfolding new_chars
new_chars_lem fresh size buffer h = elim (Bool-cases (is_negative size)) [
  | inl negative ↦ cc (rw negative at h)
  | inr fits ↦ (fits, sym (ok-injective (rw fits at h)))
]
