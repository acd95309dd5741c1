-- ===== src/Paging/Uses.antt =====
-- getLeastUsedPhysicalPage: the first frame with the fewest uses.
use nach_osx.Prelude.{
  ltb, lt→ltb, Bool-cases, length, get_or, pos, ok, ◌>>=◌, ℕ, zero, suc, ◌+◌, ◌-◌, ◌≤◌, ◌<◌, ◌≡◌,
  refl, subst, inl, inr, List, arith,
}
use nach_osx.Paging.{
  InvertedPageTable, num_phys_pages_ipt, at, least_loop, get_least_used_physical_page,
}

-- Frame `p` has the fewest uses of the frames below `bound`, and each in front of it has more.
pub record Least (uses : List ℕ) (bound p : ℕ) : Type 0 where
  pub below : p < bound
  pub fewest : (j : ℕ) → j < bound → get_or uses p 0 ≤ get_or uses j 0
  pub earliest : (j : ℕ) → j < p → get_or uses p 0 < get_or uses j 0

least_loop-Least :
    (n i : ℕ) (uses : List ℕ) (p : ℕ)
    → n + i ≤ length uses
    → Least uses i p
    → (q : ℕ) × (least_loop n i uses (get_or uses p 0) p ≡ ok q) × Least uses (n + i) q
unfolding least_loop
least_loop-Least zero i uses p room l = (
  p,
  refl,
  record {
    below = omega (arith, l.below);
    fewest = λ j h. l.fewest j (omega arith);
    earliest = l.earliest;
  },
)
least_loop-Least (suc n) i uses p room l =
    elim (Bool-cases (ltb (get_or uses i 0) (get_or uses p 0))) [
      | inl fewer ↦
          let (q, e, l') = least_loop-Least n (i + 1) uses i (omega arith) (record {
            below = omega arith;
            fewest = λ j h. ground (arith, fewer, l.fewest j);
            earliest = λ j h. ground (arith, fewer, l.fewest j);
          }) in
          (q, rw (lt→ltb i (length uses) (omega arith), fewer) e, further q l')
      | inr more ↦
          let (q, e, l') = least_loop-Least n (i + 1) uses p (omega arith) (record {
            below = omega (arith, l.below);
            fewest = λ j h. ground (arith, more, l.fewest j);
            earliest = l.earliest;
          }) in
          (q, rw (lt→ltb i (length uses) (omega arith), more) e, further q l')
    ]
  where
    further : (q : ℕ) → Least uses (n + (i + 1)) q → Least uses (suc n + i) q
    further q = subst (λ k. Least uses k q) (omega arith)

least_loop_lem :
    (n : ℕ) (uses : List ℕ)
    → suc n ≤ length uses
    → (p : ℕ) × ((at uses (pos 0) 0 >>= λ first. least_loop n 1 uses first 0) ≡ ok p)
      × Least uses (n + 1) p
least_loop_lem n uses room =
    let (p, e, l) = least_loop-Least n 1 uses 0 (omega arith) (record {
      below = omega arith;
      fewest = λ j h. ground arith;
      earliest = λ j h. absurd (omega arith);
    }) in
    (p, rw (lt→ltb 0 (length uses) (omega arith)) e, l)

-- Its loop ends on a frame with the fewest uses of all, the first such frame.
pub get_least_used_physical_page-Least :
    (t : InvertedPageTable)
    → length t.uses ≡ num_phys_pages_ipt
    → (p : ℕ) × (get_least_used_physical_page t ≡ ok p) × Least t.uses num_phys_pages_ipt p
unfolding get_least_used_physical_page
get_least_used_physical_page-Least t size =
    least_loop_lem (num_phys_pages_ipt - 1) t.uses (omega (arith, size))
