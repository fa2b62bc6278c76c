-- ===== src/Axiom/SlabTests.antt =====
-- The theorem on slabs at a page that is given out of.
use c_sdk.Base.{ℕ, ◌≡◌, ◌≢◌, refl, true, false, none, some, [], arith}
use c_sdk.Axiom.Slab.{
  Slab, create_slab, create_sized, page_create, aligned_size, first_page_size, next, next_in, hand,
  next_page_size,
}
use c_sdk.Axiom.Slab.Next.{IsSlab, Handed, in_range, in_use, next-Handed}

abbrev no_slab : Slab
no_slab = record { pages = []; object_size = 0; page_size = 0 }

-- A slab of objects of 100 bytes, of which one was given out.
abbrev slab : Slab
slab = elim (create_slab 65536 4096 100 0) [ none ↦ no_slab | some s ↦ (next 0 s).1 ]

abbrev block : ℕ
block = 131072

-- That block is apart from the page at 65536.
slab-free :
    (x : ℕ)
    → block ≢ 0
    → in_range block (next_page_size slab.page_size) x ≡ true
    → in_use slab.pages x ≡ false
unfolding create_slab create_sized page_create aligned_size first_page_size next next_in hand
    next_page_size
slab-free x ne h = ground arith

slab-IsSlab : IsSlab slab
unfolding create_slab create_sized page_create aligned_size first_page_size next next_in hand
    next_page_size
slab-IsSlab = record {
  sized = omega arith;
  fits = omega arith;
  small = omega arith;
  first = (omega arith, omega arith, λ x h. refl);
}

next-Handed_example : Handed block slab (next block slab)
next-Handed_example = next-Handed block slab slab-IsSlab slab-free
