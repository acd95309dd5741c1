-- ===== src/Post/Wire.antt =====
-- What is written into a buffer is read from it: headers, and packets of a header and its data.
use nach_osx.Prelude.{
  length, take, drop, overlay, length-overlay, take-drop-overlay, length-append, ℕ, zero, suc, ◌+◌,
  ◌^◌, ◌≤◌, ◌<◌, ◌≡◌, refl, sym, ap, ◌∙◌, List, [], ◌∷◌, ◌++◌, arith,
}
use nach_osx.Words.{to_bytes, from_bytes}
use nach_osx.Post.{Header, header_size, header_bytes, read_header}

-- The fields fit an int of four bytes.
pub record Fits (h : Header) : Type 0 where
  pub to : h.to < 2 ^ 32
  pub from : h.from < 2 ^ 32
  pub length_of : h.length_of < 2 ^ 32

from_bytes-to_bytes : (w : ℕ) → w < 2 ^ 32 → from_bytes (to_bytes 4 w) ≡ w
from_bytes-to_bytes w h = omega arith

pub length-header_bytes : (h : Header) → length (header_bytes h) ≡ header_size
unfolding header_bytes
length-header_bytes h = refl

read_header-header_bytes :
    (h : Header) (buffer : List ℕ)
    → Fits h
    → take header_size buffer ≡ header_bytes h
    → read_header buffer ≡ h
unfolding read_header header_bytes
read_header-header_bytes h buffer f same =
    ap
      (λ bytes. record {
        to = from_bytes (take 4 bytes);
        from = from_bytes (take 4 (drop 4 bytes));
        length_of = from_bytes (take 4 (drop 8 bytes));
      })
      same
    ∙ (λ i. record {
      to = from_bytes-to_bytes h.to f.to i;
      from = from_bytes-to_bytes h.from f.from i;
      length_of = from_bytes-to_bytes h.length_of f.length_of i;
    })

take-overlay :
    (n : ℕ) (xs : List ℕ) (i : ℕ) (ys : List ℕ) → n ≤ i → take n (overlay xs i ys) ≡ take n xs
take-overlay zero xs i ys le = refl
take-overlay (suc n) [] i ys le = refl
take-overlay (suc n) (x ∷ xs) zero ys le = absurd (omega arith)
take-overlay (suc n) (x ∷ xs) (suc i) ys le = ap (λ l. x ∷ l) (take-overlay n xs i ys (omega arith))

take-take : (n m : ℕ) (xs : List ℕ) → n ≤ m → take n (take m xs) ≡ take n xs
take-take zero m xs le = refl
take-take (suc n) zero xs le = absurd (omega arith)
take-take (suc n) (suc m) [] le = refl
take-take (suc n) (suc m) (x ∷ xs) le = ap (λ l. x ∷ l) (take-take n m xs (omega arith))

drop-take : (k n : ℕ) (xs : List ℕ) → drop k (take (k + n) xs) ≡ take n (drop k xs)
drop-take zero n xs = ap (λ m. take m xs) same
  where
    same : 0 + n ≡ n
    same = omega arith
drop-take (suc k) n [] = ap (λ m. drop (suc k) (take m [])) same ∙ nothing n
  where
    same : suc k + n ≡ suc (k + n)
    same = omega arith

    nothing : (n : ℕ) → ◌≡◌ {A = List ℕ} [] (take n [])
    nothing zero = refl
    nothing (suc n) = refl
drop-take (suc k) n (x ∷ xs) = ap (λ m. drop (suc k) (take m (x ∷ xs))) same ∙ drop-take k n xs
  where
    same : suc k + n ≡ suc (k + n)
    same = omega arith

pub take-all : (n : ℕ) (xs : List ℕ) → length xs ≤ n → take n xs ≡ xs
take-all zero [] le = refl
take-all zero (x ∷ xs) le = absurd (omega arith)
take-all (suc n) [] le = refl
take-all (suc n) (x ∷ xs) le = ap (λ l. x ∷ l) (take-all n xs (omega arith))

-- A header and data behind it.
abbrev pub packet : List ℕ → Header → List ℕ → List ℕ
packet memory h bytes = overlay (overlay memory 0 (header_bytes h)) header_size bytes

module _ (memory : List ℕ) (h : Header) (bytes : List ℕ) (fits : Fits h)
    (room : header_size + length bytes ≤ length memory) where
  pub read_header-packet : read_header (packet memory h bytes) ≡ h
  read_header-packet = read_header-header_bytes h (packet memory h bytes) fits (
      take-overlay header_size (overlay memory 0 (header_bytes h)) header_size bytes (omega arith)
      ∙ take-drop-overlay memory 0 header_size (header_bytes h) (length-header_bytes h)
          (omega arith))

  pub take-packet : take (length bytes) (drop header_size (packet memory h bytes)) ≡ bytes
  take-packet =
      take-drop-overlay (overlay memory 0 (header_bytes h)) header_size (length bytes) bytes refl
        (omega (arith, length-overlay memory 0 (header_bytes h)))

-- The same where the two stand in one run of bytes at the start of a buffer.
module _ (memory : List ℕ) (h : Header) (bytes : List ℕ) (fits : Fits h)
    (room : header_size + length bytes ≤ length memory) where
  abbrev together : List ℕ
  together = header_bytes h ++ bytes

  pub length-together : length together ≡ header_size + length bytes
  length-together = omega (arith, length-append (header_bytes h) bytes, length-header_bytes h)

  whole : take (header_size + length bytes) (overlay memory 0 together) ≡ together
  whole =
      take-drop-overlay memory 0 (header_size + length bytes) together length-together (omega arith)

  pub read_header-together : read_header (overlay memory 0 together) ≡ h
  unfolding header_bytes
  read_header-together = read_header-header_bytes h (overlay memory 0 together) fits (
      sym (
        take-take header_size (header_size + length bytes) (overlay memory 0 together)
          (omega arith))
      ∙ ap (take header_size) whole)

  pub take-together : take (length bytes) (drop header_size (overlay memory 0 together)) ≡ bytes
  unfolding header_bytes
  take-together =
      sym (drop-take header_size (length bytes) (overlay memory 0 together))
      ∙ ap (drop header_size) whole
