-- ===== src/MipsSim/Fields.antt =====
-- Decoding gives back the fields that an instruction is made of.
use Prim.Native.Nat.{bit_and, bit_or, bit_or-bitwise}
use native.Mathlib.Nat.{pow-suc}
use nach_osx.Bits.{bit, bit_or-halves, bit_and-shift_one}
use nach_osx.Words.{bit_and-ones}
use nach_osx.MipsSim.OpCodes.{
  OpCode, OpInfo, row, op_table, special_table, ifmt, jfmt, rfmt, op_res,
}
use nach_osx.MipsSim.Decoding.{Instruction, decode_extra, decode_op_code, decode}
use nach_osx.Prelude.{
  ltb, ◌==◌, if◌then◌else◌, Bool-cases, get_or, ℕ, zero, suc, ◌+◌, ◌*◌, ◌/◌, ◌%◌, ◌^◌, ◌<◌, ◌≡◌,
  refl, ap, ◌∙◌, inl, inr, not, arith,
}

pub low_five : (w : ℕ) → bit_and w 0x1f ≡ w % 32
low_five w = let (high, split, small) = bit_and-ones 5 w in omega (arith, split, small)

low_six : (w : ℕ) → bit_and w 0x3f ≡ w % 64
low_six w = let (high, split, small) = bit_and-ones 6 w in omega (arith, split, small)

low_sixteen : (w : ℕ) → bit_and w 0xffff ≡ w % 0x1_0000
low_sixteen w = let (high, split, small) = bit_and-ones 16 w in omega (arith, split, small)

low_twenty_six : (w : ℕ) → bit_and w 0x3ff_ffff ≡ w % 0x400_0000
low_twenty_six w = let (high, split, small) = bit_and-ones 26 w in omega (arith, split, small)

-- Bits above the lower `n` are added by `|`.
bit_or-above : (n w m : ℕ) → w < 2 ^ n → bit_or w (2 ^ n * m) ≡ w + 2 ^ n * m
bit_or-above zero zero m h = simp bit_or-bitwise (omega arith)
bit_or-above zero (suc w) m h = absurd (omega arith)
bit_or-above (suc n) w m h =
    let twice : 2 ^ suc n * m ≡ 2 * (2 ^ n * m) = omega (arith, ap (λ p. p * m) (pow-suc 2 n)) in
    let halved : 2 ^ suc n * m / 2 ≡ 2 ^ n * m = omega (arith, twice) in
    let (upper, lower) = bit_or-halves w (2 ^ suc n * m) in
    let upper_is = upper ∙ ap (bit_or (w / 2)) halved in
    omega (arith, twice, upper_is, lower, bit_or-above n (w / 2) m (omega (arith, pow-suc 2 n)))

-- The sign extension of 16 bits.
abbrev pub extended : ℕ → ℕ
extended imm = if ltb imm 0x8000 then imm else imm + 0xffff_0000

-- The highest of `n + 1` bits is the sign.
bit-top : (n w : ℕ) → w < 2 ^ suc n → bit n w ≡ not (ltb w (2 ^ n))
unfolding bit
bit-top zero w h = ground arith
bit-top (suc n) w h = ground (arith, bit-top n (w / 2), pow-suc 2 (suc n), pow-suc 2 n)

decode_extra-ifmt : (value : ℕ) → decode_extra ifmt value ≡ extended (value % 0x1_0000)
unfolding decode_extra
decode_extra-ifmt value =
    let imm = value % 0x1_0000 in
    let sign : (bit_and imm 0x8000 == 0) ≡ not (bit 15 imm) = bit_and-shift_one 15 imm in
    let top : bit 15 imm ≡ not (ltb imm 0x8000) = bit-top 15 imm (omega arith) in
    let above : bit_or imm 0xffff_0000 ≡ imm + 0xffff_0000 =
      bit_or-above 16 imm 0xffff (omega arith) in
    rw (low_sixteen value, sign, top, above)
      (elim (Bool-cases (ltb imm 0x8000)) [ inl small ↦ rw small | inr large ↦ rw large ])

decode_extra-rfmt : (value : ℕ) → decode_extra rfmt value ≡ value / 0x40 % 32
unfolding decode_extra
decode_extra-rfmt value = low_five (value / 0x40)

decode_extra-jfmt : (value : ℕ) → decode_extra jfmt value ≡ value % 0x400_0000
unfolding decode_extra
decode_extra-jfmt value = low_twenty_six value

-- The fields in front of the lower 16 bits, and the row of the table.
abbrev pub Fields : Instruction → ℕ → OpCode → ℕ → ℕ → ℕ → ℕ → Type 0
Fields ins value code rs rt rd extra =
    (ins.value ≡ value)
    × (ins.op_code ≡ code)
    × (ins.rs ≡ rs)
    × (ins.rt ≡ rt)
    × (ins.rd ≡ rd)
    × (ins.extra ≡ extra)

abbrev pub table_row : ℕ → OpInfo
table_row i = get_or op_table i (row op_res ifmt)

decode-Fields :
    (value top : ℕ)
    → value / 0x400_0000 ≡ top
    → top < 64
    → Fields
        (decode value)
        value
        (decode_op_code (table_row top).op_code value)
        (value / 0x20_0000 % 32)
        (value / 0x1_0000 % 32)
        (value / 0x800 % 32)
        (decode_extra (table_row top).format value)
unfolding decode
decode-Fields value top is lt =
    let index : bit_and (value / 0x400_0000) 0x3f ≡ top =
      omega (arith, low_six (value / 0x400_0000)) in
    (
      refl,
      ap (λ i. decode_op_code (table_row i).op_code value) index,
      low_five (value / 0x20_0000),
      low_five (value / 0x1_0000),
      low_five (value / 0x800),
      ap (λ i. decode_extra (table_row i).format value) index,
    )

-- A register instruction: its function code picks the operation, and each field comes back.
pub decode-register :
    (rs rt rd shamt funct : ℕ)
    → rs < 32
    → rt < 32
    → rd < 32
    → shamt < 32
    → funct < 64
    → (let value = rs * 0x20_0000 + rt * 0x1_0000 + rd * 0x800 + shamt * 0x40 + funct in
        Fields (decode value) value (get_or special_table funct op_res) rs rt rd shamt)
unfolding op_table decode_op_code
decode-register rs rt rd shamt funct hs ht hd hh hf =
    let value = rs * 0x20_0000 + rt * 0x1_0000 + rd * 0x800 + shamt * 0x40 + funct in
    let (same, code, s, t, d, extra) = decode-Fields value 0 (omega arith) (omega arith) in
    let function : bit_and value 0x3f ≡ funct = omega (arith, low_six value) in
    (
      same,
      code ∙ ap (λ i. get_or special_table i op_res) function,
      s ∙ omega arith,
      t ∙ omega arith,
      d ∙ omega arith,
      extra ∙ decode_extra-rfmt value ∙ omega arith,
    )

-- An immediate instruction: the row of the table picks the operation, and the 16 bits are sign-extended.
pub decode-immediate :
    (top rs rt imm : ℕ) (code : OpCode)
    → top < 64
    → rs < 32
    → rt < 32
    → imm < 0x1_0000
    → get_or op_table top (row op_res ifmt) ≡ row code ifmt
    → (let value = top * 0x400_0000 + rs * 0x20_0000 + rt * 0x1_0000 + imm in
        Fields (decode value) value (decode_op_code code value) rs rt (imm / 0x800) (extended imm))
decode-immediate top rs rt imm code hp hs ht hi found =
    let value = top * 0x400_0000 + rs * 0x20_0000 + rt * 0x1_0000 + imm in
    let (same, op, s, t, d, extra) = decode-Fields value top (omega arith) hp in
    let low : value % 0x1_0000 ≡ imm = omega arith in
    (
      same,
      op ∙ ap (λ (r : OpInfo). decode_op_code r.op_code value) found,
      s ∙ omega arith,
      t ∙ omega arith,
      d ∙ omega arith,
      extra
          ∙ ap (λ (r : OpInfo). decode_extra r.format value) found
          ∙ decode_extra-ifmt value
          ∙ ap extended low,
    )

-- A jump: the lower 26 bits come back.
pub decode-jump :
    (top target : ℕ) (code : OpCode)
    → top < 64
    → target < 0x400_0000
    → get_or op_table top (row op_res ifmt) ≡ row code jfmt
    → ((decode (top * 0x400_0000 + target)).op_code
        ≡ decode_op_code code (top * 0x400_0000 + target))
      × ((decode (top * 0x400_0000 + target)).extra ≡ target)
decode-jump top target code hp ht found =
    let value = top * 0x400_0000 + target in
    let fields = decode-Fields value top (omega arith) hp in
    (
      fields.1 ∙ ap (λ (r : OpInfo). decode_op_code r.op_code value) found,
      fields.5
          ∙ ap (λ (r : OpInfo). decode_extra r.format value) found
          ∙ decode_extra-jfmt value
          ∙ omega arith,
    )
