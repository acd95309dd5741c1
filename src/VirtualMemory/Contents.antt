-- ===== src/VirtualMemory/Contents.antt =====
-- What loadFromDisk puts into a frame.
use nach_osx.Prelude.{
  ◌==◌, if◌then◌else◌, ==_iff, Bool-cases, length, drop, overlay, length-take, length-drop, ℕ, ◌+◌,
  ◌-◌, ◌*◌, ◌%◌, ◌≤◌, ◌<◌, min, ◌≡◌, ap, ◌∙◌, inl, inr, not, ◌&&◌, List, arith,
}
use nach_osx.OpenFile.Buffers.{
  at, at-overlay, at-overlay_before, at-overlay_behind, at-take, at-drop,
}
use nach_osx.Translate.{page_size}
use nach_osx.VirtualMemory.{NoffHeader, Executable, program_size, read_at, size_to_load}

-- Frame `f` of `after` has the bytes of page `page` of the program, as far as the program and its file go;
-- the other frames are those of `before`.
pub record HasPage (exe : Executable) (page f : ℕ) (before after : List ℕ) : Type 0 where
  pub bytes :
      (k : ℕ)
      → k < page_size
      → page * page_size + k < program_size exe.header
      → exe.header.code.in_file_addr + page * page_size + k < length exe.bytes
      → at after (f * page_size + k)
        ≡ at exe.bytes (exe.header.code.in_file_addr + page * page_size + k)
  pub frames_below : (j : ℕ) → j < f * page_size → at after j ≡ at before j
  pub frames_above : (j : ℕ) → f * page_size + page_size ≤ j → at after j ≡ at before j

pub size_to_load_bound : (h : NoffHeader) (n page : ℕ) → size_to_load h n page ≤ page_size
unfolding size_to_load
size_to_load_bound h n page = ground arith

-- No byte of the program is left out, in an address space with room for the program.
size_to_load_enough :
    (size n page k : ℕ)
    → size ≤ n * page_size
    → k < page_size
    → page * page_size + k < size
    → k < (if (page + 1 == n) && not (size % page_size == 0) then size % page_size else page_size)
size_to_load_enough size n page k room lt inside = elim (Bool-cases (page + 1 == n)) [
  | inl last ↦
      let ends : page + 1 ≡ n = (==_iff (page + 1) n).0 last in
      elim (Bool-cases (size % page_size == 0)) [
        | inl even ↦ rw (last, even) lt
        | inr part ↦ rw (last, part) (ground (arith, ends))
      ]
  | inr more ↦ rw more lt
]

pub overlay-HasPage :
    (exe : Executable) (n page f : ℕ) (before : List ℕ)
    → program_size exe.header ≤ n * page_size
    → f * page_size + page_size ≤ length before
    → HasPage exe page f before (
        overlay before (f * page_size) (
          read_at exe
            (size_to_load exe.header n page)
            (exe.header.code.in_file_addr + page * page_size)))
unfolding size_to_load
overlay-HasPage exe n page f before room fits =
    let start = exe.header.code.in_file_addr + page * page_size in
    let size = size_to_load exe.header n page in
    let bytes = read_at exe size start in
    let count : length bytes ≡ min size (length exe.bytes - start) =
      length-take size (drop start exe.bytes) ∙ ap (min size) (length-drop start exe.bytes) in
    let short = size_to_load_bound exe.header n page in
    record {
      bytes = λ k lt inside in_file.
          let loaded = size_to_load_enough (program_size exe.header) n page k room lt inside in
          at-overlay before (f * page_size) bytes k (omega (arith, count, loaded)) (omega arith)
          ∙ (at-take size (drop start exe.bytes) k loaded ∙ at-drop start exe.bytes k);
      frames_below = λ j lt. at-overlay_before before (f * page_size) bytes j lt;
      frames_above =
          λ j le. at-overlay_behind before (f * page_size) bytes j (omega (arith, count, short));
    }
