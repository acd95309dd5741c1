-- ===== src/OpenFile/Buffers.antt =====
-- Buffers byte by byte: what a copy leaves where.
use nach_osx.Prelude.{
  ltb, Bool-cases, length, get_or, take, drop, overlay, length-overlay, length-take, length-drop,
  ok, ℕ, zero, suc, ◌+◌, ◌-◌, ◌≤◌, ◌<◌, ◌≡◌, refl, ap, ◌∙◌, inl, inr, List, [], ◌∷◌, arith,
}
use nach_osx.OpenFile.{copy_bytes}

abbrev pub at : List ℕ → ℕ → ℕ
at xs i = get_or xs i 0

pub at-take : (n : ℕ) (xs : List ℕ) (k : ℕ) → k < n → at (take n xs) k ≡ at xs k
at-take zero xs k lt = elim lt [ ]
at-take (suc n) [] k lt = refl
at-take (suc n) (x ∷ xs) zero lt = refl
at-take (suc n) (x ∷ xs) (suc k) lt = at-take n xs k (omega arith)

pub at-drop : (i : ℕ) (xs : List ℕ) (k : ℕ) → at (drop i xs) k ≡ at xs (i + k)
at-drop zero xs k = ap (at xs) (omega arith)
at-drop (suc i) [] k = refl
at-drop (suc i) (x ∷ xs) k = at-drop i xs k ∙ ap (at (x ∷ xs)) next
  where
    next : suc (i + k) ≡ suc i + k
    next = omega arith

pub at-overlay :
    (xs : List ℕ) (i : ℕ) (ys : List ℕ) (k : ℕ)
    → k < length ys
    → i + k < length xs
    → at (overlay xs i ys) (i + k) ≡ at ys k
at-overlay [] i ys k here inside = absurd (omega arith)
at-overlay (x ∷ xs) (suc i) ys k here inside =
    ap (at (x ∷ overlay xs i ys)) next ∙ at-overlay xs i ys k here (omega arith)
  where
    next : suc i + k ≡ suc (i + k)
    next = omega arith
at-overlay (x ∷ xs) zero [] k here inside = absurd (omega arith)
at-overlay (x ∷ xs) zero (y ∷ ys) zero here inside = refl
at-overlay (x ∷ xs) zero (y ∷ ys) (suc k) here inside =
    ap (at (y ∷ overlay xs zero ys)) next
    ∙ (ap (at (overlay xs zero ys)) back ∙ at-overlay xs zero ys k (omega arith) (omega arith))
  where
    next : 0 + suc k ≡ suc k
    next = omega arith

    back : k ≡ 0 + k
    back = omega arith

pub at-overlay_before :
    (xs : List ℕ) (i : ℕ) (ys : List ℕ) (k : ℕ) → k < i → at (overlay xs i ys) k ≡ at xs k
at-overlay_before [] i ys k lt = refl
at-overlay_before (x ∷ xs) zero ys k lt = elim lt [ ]
at-overlay_before (x ∷ xs) (suc i) ys zero lt = refl
at-overlay_before (x ∷ xs) (suc i) ys (suc k) lt = at-overlay_before xs i ys k (omega arith)

pub at-overlay_behind :
    (xs : List ℕ) (i : ℕ) (ys : List ℕ) (k : ℕ)
    → i + length ys ≤ k
    → at (overlay xs i ys) k ≡ at xs k
at-overlay_behind [] i ys k le = refl
at-overlay_behind (x ∷ xs) (suc i) ys zero le = refl
at-overlay_behind (x ∷ xs) (suc i) ys (suc k) le = at-overlay_behind xs i ys k (omega arith)
at-overlay_behind (x ∷ xs) zero [] k le = refl
at-overlay_behind (x ∷ xs) zero (y ∷ ys) zero le = absurd (omega arith)
at-overlay_behind (x ∷ xs) zero (y ∷ ys) (suc k) le = at-overlay_behind xs zero ys k (omega arith)

-- `result` is `target` with the bytes f 0, ..., f (n - 1) from place `to` on.
pub record Filled (f : ℕ → ℕ) (n : ℕ) (target : List ℕ) (to : ℕ) (result : List ℕ) : Type 0 where
  pub same_size : length result ≡ length target
  pub inside : (k : ℕ) → k < n → at result (to + k) ≡ f k
  pub before : (k : ℕ) → k < to → at result k ≡ at target k
  pub behind : (k : ℕ) → to + n ≤ k → at result k ≡ at target k

pub Filled-nil : (f : ℕ → ℕ) (target : List ℕ) (to : ℕ) → Filled f 0 target to target
Filled-nil f target to = record {
  same_size = refl;
  inside = λ k lt. absurd (omega arith);
  before = λ k lt. refl;
  behind = λ k le. refl;
}

pub copy_bytes-Filled :
    (source : List ℕ) (from n : ℕ) (target : List ℕ) (to : ℕ)
    → from + n ≤ length source
    → to + n ≤ length target
    → (result : List ℕ) × (copy_bytes source from n target to ≡ ok result)
      × Filled (λ k. at source (from + k)) n target to result
unfolding copy_bytes
copy_bytes-Filled source from n target to fits room = (
  overlay target to bytes,
  ground (arith, fits, room),
  record {
    same_size = length-overlay target to bytes;
    inside = λ k lt.
        at-overlay target to bytes k (omega (arith, count)) (omega arith)
        ∙ (at-take n (drop from source) k lt ∙ at-drop from source k);
    before = λ k lt. at-overlay_before target to bytes k lt;
    behind = λ k le. at-overlay_behind target to bytes k (omega (arith, count));
  },
)
  where
    bytes : List ℕ
    bytes = take n (drop from source)

    count : length (take n (drop from source)) ≡ n
    count = omega (arith, length-take n (drop from source), length-drop from source)

-- One fill behind another.
pub Filled-Filled :
    (f g h : ℕ → ℕ) (n m total : ℕ) (target : List ℕ) (to next : ℕ) (middle result : List ℕ)
    → Filled f n target to middle
    → Filled g m middle next result
    → next ≡ to + n
    → total ≡ n + m
    → ((k : ℕ) → k < n → f k ≡ h k)
    → ((k : ℕ) → k < m → g k ≡ h (n + k))
    → Filled h total target to result
Filled-Filled f g h n m total target to next middle result p q e e' low high = record {
  same_size = q.same_size ∙ p.same_size;
  inside = λ k lt. elim (Bool-cases (ltb k n)) [
    | inl here ↦
        q.before (to + k) (ground arith) ∙ (p.inside k (ground arith) ∙ low k (ground arith))
    | inr there ↦ upper k lt (ground arith)
  ];
  before = λ k lt. q.before k (omega arith) ∙ p.before k lt;
  behind = λ k le. q.behind k (omega arith) ∙ p.behind k (omega arith);
}
  where
    upper : (k : ℕ) → k < total → n ≤ k → at result (to + k) ≡ h k
    upper k lt le =
        let back : n + (k - n) ≡ k = omega arith in
        let place : to + k ≡ next + (k - n) = omega arith in
        ap (at result) place
        ∙ (q.inside (k - n) (omega arith) ∙ (high (k - n) (omega arith) ∙ ap h back))
