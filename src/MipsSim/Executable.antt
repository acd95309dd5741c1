-- ===== src/MipsSim/Executable.antt =====
-- Every decoded instruction has a case in `OneInstruction`.
use Prim.Native.Nat.{bit_and}
use nach_osx.MipsSim.OpCodes.{
  OpCode, row, op_table, special_table, ifmt, op_rfe, op_res, special, bcond,
}
use nach_osx.MipsSim.Decoding.{decode_branch, decode_op_code, decode}
use nach_osx.Prelude.{
  get_or, ℕ, zero, suc, ◌/◌, ◌<◌, ◌≡◌, refl, Bool, true, false, ◌&&◌, List, [], ◌∷◌, arith,
}
use nach_osx.MipsSim.Fields.{low_five, table_row}

-- OneInstruction has a case for the code; it stops at an ASSERT for the three others.
abbrev pub executable : OpCode → Bool
executable op_rfe = false
executable special = false
executable bcond = false
executable code = true

abbrev all_of : {A : Type 0} → (A → Bool) → List A → Bool
all_of p [] = true
all_of p (x ∷ xs) = p x && all_of p xs

get_or-all_of :
    {A : Type 0} (p : A → Bool) (xs : List A) (i : ℕ) (d : A)
    → all_of p xs ≡ true
    → p d ≡ true
    → p (get_or xs i d) ≡ true
get_or-all_of p [] i d h k = k
get_or-all_of p (x ∷ xs) zero d h k = ground arith
get_or-all_of p (x ∷ xs) (suc i) d h k = get_or-all_of p xs i d (ground arith) k

decode_branch-executable : (i : ℕ) → executable (decode_branch i) ≡ true
unfolding decode_branch
decode_branch-executable i = ground arith

-- A row of the table leads to an executable code.
abbrev leads : OpCode → Bool
leads op_rfe = false
leads code = true

decode_op_code-executable :
    (code : OpCode) (value : ℕ) → leads code ≡ true → executable (decode_op_code code value) ≡ true
unfolding decode_op_code special_table
decode_op_code-executable op_rfe value h = h
decode_op_code-executable special value h =
    get_or-all_of executable special_table (bit_and value 0x3f) op_res refl refl
decode_op_code-executable bcond value h = decode_branch-executable (bit_and value 0x1f_0000)
decode_op_code-executable code value h = refl

-- Whatever the word, decoding gives a code for which OneInstruction has a case, and three registers
-- of the 32.
pub decode-executable :
    (value : ℕ)
    → (executable (decode value).op_code ≡ true)
      × ((decode value).rs < 32)
      × ((decode value).rt < 32)
      × ((decode value).rd < 32)
unfolding decode op_table
decode-executable value = (
  decode_op_code-executable (table_row (bit_and (value / 0x400_0000) 0x3f)).op_code value (
      get_or-all_of (λ r. leads r.op_code) op_table (bit_and (value / 0x400_0000) 0x3f)
        (row op_res ifmt) refl refl),
  omega (arith, low_five (value / 0x20_0000)),
  omega (arith, low_five (value / 0x1_0000)),
  omega (arith, low_five (value / 0x800)),
)
