-- ===== src/Prelude/Lists.antt =====
-- Lists measured and indexed by native numbers, under the library's names.
use Prim.Native.Nat.{ℕ, zero, suc, ◌+◌, ◌-◌, ◌<◌, ◌≤◌, min}
use mathlib.Core.Path.{◌≡◌, refl, ap}
use mathlib.Core.Logic.{◌≢◌}
use mathlib.Core.List.{List, [], ◌∷◌, ◌++◌}
use native.Mathlib.Omega.{arith}

module _ {ℓ} {A : Type ℓ} where
  abbrev pub length : List A → ℕ
  length [] = 0
  length (x ∷ xs) = suc (length xs)

  abbrev pub get_or : List A → ℕ → A → A
  get_or [] i d = d
  get_or (x ∷ xs) zero d = x
  get_or (x ∷ xs) (suc i) d = get_or xs i d

  -- A write out of bounds changes nothing.
  abbrev pub set : List A → ℕ → A → List A
  set [] i v = []
  set (x ∷ xs) zero v = v ∷ xs
  set (x ∷ xs) (suc i) v = x ∷ set xs i v

  abbrev pub replicate : ℕ → A → List A
  replicate zero a = []
  replicate (suc n) a = a ∷ replicate n a

module _ {ℓ} {A : Type ℓ} where
  abbrev pub take : ℕ → List A → List A
  take zero xs = []
  take (suc n) [] = []
  take (suc n) (x ∷ xs) = x ∷ take n xs

  abbrev pub drop : ℕ → List A → List A
  drop zero xs = xs
  drop (suc n) [] = []
  drop (suc n) (x ∷ xs) = drop n xs

  -- `ys` written over the elements of `xs` from position `i` on, as far as `xs` goes.
  abbrev pub overlay : List A → ℕ → List A → List A
  overlay [] i ys = []
  overlay (x ∷ xs) (suc i) ys = x ∷ overlay xs i ys
  overlay (x ∷ xs) zero [] = x ∷ xs
  overlay (x ∷ xs) zero (y ∷ ys) = y ∷ overlay xs zero ys

module _ {ℓ} {A : Type ℓ} where
  pub length-overlay : (xs : List A) (i : ℕ) (ys : List A) → length (overlay xs i ys) ≡ length xs
  length-overlay [] i ys = refl
  length-overlay (x ∷ xs) (suc i) ys = ap suc (length-overlay xs i ys)
  length-overlay (x ∷ xs) zero [] = refl
  length-overlay (x ∷ xs) zero (y ∷ ys) = ap suc (length-overlay xs zero ys)

  -- What was written is read back.
  pub take-drop-overlay :
      (xs : List A) (i n : ℕ) (ys : List A)
      → length ys ≡ n
      → i + n ≤ length xs
      → take n (drop i (overlay xs i ys)) ≡ ys
  take-drop-overlay xs zero zero [] len fits = refl
  take-drop-overlay xs zero (suc n) [] len fits = absurd (omega arith)
  take-drop-overlay xs zero zero (y ∷ ys) len fits = absurd (omega arith)
  take-drop-overlay [] zero (suc n) (y ∷ ys) len fits = absurd (omega arith)
  take-drop-overlay (x ∷ xs) zero (suc n) (y ∷ ys) len fits =
      ap (λ l. y ∷ l) (take-drop-overlay xs zero n ys (omega arith) (omega arith))
  take-drop-overlay [] (suc i) n ys len fits = absurd (omega arith)
  take-drop-overlay (x ∷ xs) (suc i) n ys len fits = take-drop-overlay xs i n ys len (omega arith)

  -- What covers a list replaces it.
  pub overlay-all : (xs ys : List A) → length ys ≡ length xs → overlay xs 0 ys ≡ ys
  overlay-all [] [] same = refl
  overlay-all [] (y ∷ ys) same = absurd (omega arith)
  overlay-all (x ∷ xs) [] same = absurd (omega arith)
  overlay-all (x ∷ xs) (y ∷ ys) same = ap (λ l. y ∷ l) (overlay-all xs ys (omega arith))

  pub take-all : (n : ℕ) (xs : List A) → length xs ≡ n → take n xs ≡ xs
  take-all zero [] same = refl
  take-all zero (x ∷ xs) same = absurd (omega arith)
  take-all (suc n) [] same = refl
  take-all (suc n) (x ∷ xs) same = ap (λ l. x ∷ l) (take-all n xs (omega arith))

  pub length-take : (n : ℕ) (xs : List A) → length (take n xs) ≡ min n (length xs)
  length-take zero xs = omega arith
  length-take (suc n) [] = omega arith
  length-take (suc n) (x ∷ xs) = omega (arith, length-take n xs)

  pub length-drop : (n : ℕ) (xs : List A) → length (drop n xs) ≡ length xs - n
  length-drop zero xs = omega arith
  length-drop (suc n) [] = omega arith
  length-drop (suc n) (x ∷ xs) = omega (arith, length-drop n xs)

module _ {ℓ} {A : Type ℓ} where
  pub length-append : (xs ys : List A) → length (xs ++ ys) ≡ length xs + length ys
  length-append [] ys = omega arith
  length-append (x ∷ xs) ys = omega (arith, length-append xs ys)

  pub length-set : (xs : List A) (i : ℕ) (v : A) → length (set xs i v) ≡ length xs
  length-set [] i v = refl
  length-set (x ∷ xs) zero v = refl
  length-set (x ∷ xs) (suc i) v = ap suc (length-set xs i v)

  pub length-replicate : (n : ℕ) (a : A) → length (replicate n a) ≡ n
  length-replicate zero a = refl
  length-replicate (suc n) a = ap suc (length-replicate n a)

  pub get_or-set_self :
      (xs : List A) (i : ℕ) (v d : A) → i < length xs → get_or (set xs i v) i d ≡ v
  get_or-set_self [] i v d h = elim h [ ]
  get_or-set_self (x ∷ xs) zero v d h = refl
  get_or-set_self (x ∷ xs) (suc i) v d h = get_or-set_self xs i v d (omega arith)

  pub get_or-set_ne :
      (xs : List A) (i j : ℕ) (v d : A) → i ≢ j → get_or (set xs i v) j d ≡ get_or xs j d
  get_or-set_ne [] i j v d h = refl
  get_or-set_ne (x ∷ xs) zero zero v d h = absurd (h refl)
  get_or-set_ne (x ∷ xs) zero (suc j) v d h = refl
  get_or-set_ne (x ∷ xs) (suc i) zero v d h = refl
  get_or-set_ne (x ∷ xs) (suc i) (suc j) v d h = get_or-set_ne xs i j v d (λ e. h (ap suc e))

pub append_assoc {ℓ} : {A : Type ℓ} (xs ys zs : List A) → (xs ++ ys) ++ zs ≡ xs ++ (ys ++ zs)
append_assoc [] ys zs = refl
append_assoc (x ∷ xs) ys zs = ap (λ l. x ∷ l) (append_assoc xs ys zs)

-- The front and the back of two lists in a row.
pub take-append {ℓ} : {A : Type ℓ} (n : ℕ) (xs ys : List A) → length xs ≡ n → take n (xs ++ ys) ≡ xs
take-append zero [] ys len = refl
take-append zero (x ∷ xs) ys len = absurd (omega arith)
take-append (suc n) [] ys len = absurd (omega arith)
take-append (suc n) (x ∷ xs) ys len = ap (λ l. x ∷ l) (take-append n xs ys (omega arith))

pub drop-append {ℓ} : {A : Type ℓ} (n : ℕ) (xs ys : List A) → length xs ≡ n → drop n (xs ++ ys) ≡ ys
drop-append zero [] ys len = refl
drop-append zero (x ∷ xs) ys len = absurd (omega arith)
drop-append (suc n) [] ys len = absurd (omega arith)
drop-append (suc n) (x ∷ xs) ys len = drop-append n xs ys (omega arith)
