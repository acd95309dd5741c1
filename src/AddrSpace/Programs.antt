-- ===== src/AddrSpace/Programs.antt =====
-- Address spaces of programs and of their forks, and their destruction.
use nach_osx.Prelude.{
  ltb, leb, ◌==◌, length, take, drop, overlay, length-overlay, length-take, ok, ℕ, zero, suc, ◌+◌,
  ◌-◌, ◌*◌, ◌≤◌, ◌<◌, ◌≡◌, refl, ◌∙◌, true, false, ◌||◌, some, List, [], ◌∷◌, ◌++◌, arith,
}
use nach_osx.BitMap.{BitMap, div_round_up}
use nach_osx.BitMap.Laws.{is_marked, IsValid}
use nach_osx.BitMap.Count.{free_bits, num_clear_lem}
use nach_osx.FileHeader.Sectors.{has, Allocated}
use nach_osx.Translate.{TranslationEntry, page_size, num_phys_pages, memory_size}
use nach_osx.Paging.{write_frame}
use nach_osx.VirtualMemory.{NoffHeader, noff_magic_number, Executable, user_stack_size, read_at}
use nach_osx.AddrSpace.{
  new_entry, copy_size, copy_pages, pages_for, loaded, exe_constructor, share_pages,
  fork_constructor, delete_space,
}
use nach_osx.AddrSpace.Frames.{frames, Numbered, find_pages-Allocated, clear_pages-Cleared}

copy_size_bound :
    (h : NoffHeader) (n page : ℕ) → 0 < n → n ≤ num_phys_pages → copy_size h n page ≤ page_size
unfolding copy_size
copy_size_bound h n page some_page few = grind arith

some_pages : (h : NoffHeader) → 0 < pages_for h
unfolding div_round_up
some_pages h = ground arith

-- The frames are in a memory of `memory_size` bytes.
copy_pages_ends :
    (exe : Executable) (n page : ℕ) (es : List TranslationEntry) (memory : List ℕ)
    → 0 < n
    → n ≤ num_phys_pages
    → ((j : ℕ) → has j (frames es) ≡ true → j < num_phys_pages)
    → length memory ≡ memory_size
    → (memory' : List ℕ) × (copy_pages exe n page es memory ≡ ok memory')
      × (length memory' ≡ memory_size)
unfolding copy_pages copy_size write_frame
copy_pages_ends exe n page [] memory some_page few inside size = (memory, refl, size)
copy_pages_ends exe n page (e ∷ es) memory some_page few inside size =
    let bytes =
      read_at exe (copy_size exe.header n page) (exe.header.code.in_file_addr + page * page_size) in
    let (memory', ends, size') =
      copy_pages_ends exe n (page + 1) es (overlay memory (e.physical_page * page_size) bytes)
        some_page few (λ j h. inside j (ground arith))
        (length-overlay memory (e.physical_page * page_size) bytes ∙ size) in
    (memory', rw room ends, size')
  where
    room :
        leb
          (e.physical_page * page_size
            + length (
                read_at exe
                  (copy_size exe.header n page)
                  (exe.header.code.in_file_addr + page * page_size)))
          (length memory)
        ≡ true
    room =
        let size_of = copy_size exe.header n page in
        let at = exe.header.code.in_file_addr + page * page_size in
        let fits = copy_size_bound exe.header n page some_page few in
        let lt : e.physical_page < num_phys_pages = inside e.physical_page (ground arith) in
        let len : length (read_at exe size_of at) ≤ page_size =
          omega (arith, length-take size_of (drop at exe.bytes), fits) in
        ground (arith, len, lt, size)

-- The constructor of a program, with enough clear bits for its pages, in a memory of the machine's size:
-- each page has a frame of its own that was free, these frames are marked and no others, and their
-- number is taken from the free ones.
pub exe_constructor-Allocated :
    (exe : Executable) (memory : List ℕ) (m : BitMap)
    → IsValid m
    → m.num_bits ≡ num_phys_pages
    → exe.header.noff_magic ≡ noff_magic_number
    → pages_for exe.header ≤ free_bits m
    → pages_for exe.header ≤ num_phys_pages
    → length memory ≡ memory_size
    → (es : List TranslationEntry) × (memory' : List ℕ) × (m' : BitMap) × (exe_constructor exe
          memory m
        ≡ ok
            (some (record { page_table = some es; num_pages = pages_for exe.header }, memory'), m'))
      × Allocated m (frames es) m'
      × (length es ≡ pages_for exe.header)
      × Numbered 0 es
unfolding exe_constructor loaded
exe_constructor-Allocated exe memory m v bits magic enough few size =
    let n = pages_for exe.header in
    let (es, m', e, a, count, numbered) = find_pages-Allocated n 0 [] m v enough in
    let (memory', e', _) =
      copy_pages_ends exe n 0 es memory (some_pages exe.header) few
        (λ j h. omega (arith, (a.fresh j h).0, bits)) size in
    (
      es,
      memory',
      m',
      rw (magic_lem, num_clear_lem m v, enough_lem, few_lem, e, e') refl,
      a,
      count,
      numbered,
    )
  where
    magic_lem : (exe.header.noff_magic == noff_magic_number) ≡ true
    magic_lem = ground (arith, magic)

    enough_lem : ltb (free_bits m) (pages_for exe.header) ≡ false
    enough_lem = ground (arith, enough)

    few_lem : leb (pages_for exe.header) num_phys_pages ≡ true
    few_lem = ground (arith, few)

-- The destructor gives back what the constructor took.
pub delete_space-exe_constructor :
    (exe : Executable) (memory : List ℕ) (m : BitMap)
    → IsValid m
    → m.num_bits ≡ num_phys_pages
    → exe.header.noff_magic ≡ noff_magic_number
    → pages_for exe.header ≤ free_bits m
    → pages_for exe.header ≤ num_phys_pages
    → length memory ≡ memory_size
    → (es : List TranslationEntry) × (memory' : List ℕ) × (m' m'' : BitMap) × (exe_constructor exe
          memory m
        ≡ ok
            (some (record { page_table = some es; num_pages = pages_for exe.header }, memory'), m'))
      × (delete_space es m' ≡ ok m'')
      × ((j : ℕ) → is_marked m'' j ≡ is_marked m j)
unfolding delete_space
delete_space-exe_constructor exe memory m v bits magic enough few size =
    let (es, memory', m', e, a, count, numbered) =
      exe_constructor-Allocated exe memory m v bits magic enough few size in
    let (m'', e', c) =
      clear_pages-Cleared es m' a.valid (λ j h. omega (arith, (a.fresh j h).0, a.same_size)) in
    (
      es,
      memory',
      m',
      m'',
      e,
      e',
      λ j. ground (arith, a.bits j, c.bits j, λ (h : has j (frames es) ≡ true). (a.fresh j h).1),
    )

has-append :
    (j : ℕ) (xs ys : List TranslationEntry)
    → has j (frames (xs ++ ys)) ≡ (has j (frames xs) || has j (frames ys))
has-append j [] ys = refl
has-append j (x ∷ xs) ys = ground (arith, has-append j xs ys)

share_pages_lem :
    (n page : ℕ) (es : List TranslationEntry)
    → n ≤ length es
    → (shared : List TranslationEntry) × (share_pages n page es ≡ ok shared)
      × ((j : ℕ) → has j (frames shared) ≡ has j (take n (frames es)))
unfolding share_pages
share_pages_lem zero page es enough = ([], refl, λ j. refl)
share_pages_lem (suc n) page [] enough = absurd (omega arith)
share_pages_lem (suc n) page (e ∷ es) enough =
    let (shared, runs, same) = share_pages_lem n (page + 1) es (omega arith) in
    (new_entry page e.physical_page ∷ shared, rw runs refl, λ j. ground (arith, same j))

has-take : (j n : ℕ) (ss : List ℕ) → has j (take n ss) ≡ true → has j ss ≡ true
has-take j zero ss h = cc
has-take j (suc n) [] h = cc
has-take j (suc n) (s ∷ ss) h = ground (arith, has-take j n ss)

-- How many pages a fork shares with its parent.
abbrev pub shared_pages : ℕ → ℕ
shared_pages num_pages = num_pages - div_round_up user_stack_size page_size

-- A fork of a parent with entries for the pages to share, with enough clear bits for its stack and frames
-- of the parent inside the map, shares the frames of the parent's first pages. The destructor of the fork
-- clears the bits of these frames too, which the parent still uses.
pub delete_space-fork_constructor :
    (num_pages : ℕ) (other : List TranslationEntry) (m : BitMap)
    → IsValid m
    → shared_pages num_pages ≤ length other
    → num_pages - shared_pages num_pages ≤ free_bits m
    → ((j : ℕ) → has j (frames other) ≡ true → j < m.num_bits)
    → (es : List TranslationEntry) × (m' m'' : BitMap) × (fork_constructor num_pages other m
        ≡ ok (some (record { page_table = some es; num_pages = num_pages }), m'))
      × (delete_space es m' ≡ ok m'')
      × ((j : ℕ)
          → has j (take (shared_pages num_pages) (frames other)) ≡ true
          → has j (frames es) ≡ true)
      × ((j : ℕ)
          → has j (take (shared_pages num_pages) (frames other)) ≡ true
          → is_marked m'' j ≡ false)
unfolding fork_constructor delete_space
delete_space-fork_constructor num_pages other m v has_pages enough inside =
    let n = shared_pages num_pages in
    let (shared, runs, same) = share_pages_lem n 0 other has_pages in
    let (stack, m', e, a, count, numbered) = find_pages-Allocated (num_pages - n) n [] m v enough in
    let (m'', e', c) = clear_pages-Cleared (shared ++ stack) m' a.valid (λ j h. ground (
      arith,
      h,
      has-append j shared stack,
      same j,
      has-take j n (frames other),
      inside j,
      λ (x : has j (frames stack) ≡ true). (a.fresh j x).0,
      a.same_size,
    )) in
    (
      shared ++ stack,
      m',
      m'',
      rw (runs, e) refl,
      e',
      λ j h. ground (arith, h, has-append j shared stack, same j),
      λ j h. ground (arith, h, has-append j shared stack, same j, c.bits j),
    )
