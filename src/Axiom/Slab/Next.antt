-- ===== src/Axiom/Slab/Next.antt =====
-- The objects of a slab never overlap.
use mathlib.Core.Path.{subst}
use c_sdk.Base.{
  ℕ, ◌+◌, ◌-◌, ◌%◌, ◌^◌, ◌<◌, ◌≤◌, ◌≡◌, ◌≢◌, refl, sym, ap, Bool, true, false, ◌&&◌, ◌||◌, Option,
  none, some, List, [], ◌∷◌, arith, ◌==◌, ltb, leb, Bool-cases, inl, inr, if◌then◌else◌,
}
use c_sdk.Axiom.Slab.{
  Slab, Page, page_header, create_slab, create_sized, page_create, hand, next_page_size, next_in,
  next, aligned_size, first_page_size,
}

-- The bytes from an address on.
abbrev pub in_range : (from n x : ℕ) → Bool
in_range from n x = leb from x && ltb x (from + n)

-- Whether a byte belongs to an object that was given out.
abbrev pub in_use : List Page → ℕ → Bool
in_use [] x = false
in_use (p ∷ prev) x = in_range (p.base + page_header) p.used x || in_use prev x

-- Of the pages, objects come from the first only, whose block has none of the others' objects.
abbrev pub IsHead : List Page → Type 0
IsHead [] = Unit {0}
IsHead (p ∷ prev) =
    (p.used ≤ p.capacity)
    × (p.capacity < 2 ^ 64)
    × ((x : ℕ) → in_range (p.base + page_header) p.capacity x ≡ true → in_use prev x ≡ false)

pub record IsSlab (s : Slab) : Type 0 where
  pub sized : 0 < s.object_size
  pub fits : s.object_size + page_header ≤ s.page_size
  pub small : s.page_size < 2 ^ 64
  pub first : IsHead s.pages

abbrev pub is_empty : List Page → Bool
is_empty [] = true
is_empty (p ∷ l) = false

-- What nr_slab_next returns: NULL, with nothing given out, or an object of bytes that were not in
-- use, and that with the ones before are those in use now. NULL comes only where no page can be had.
pub record Handed (base : ℕ) (s : Slab) (o : ℕ × Slab) : Type 0 where
  pub sound : IsSlab o.1
  pub object : o.1.object_size ≡ s.object_size
  pub fresh : (x : ℕ) → o.0 ≢ 0 → in_range o.0 s.object_size x ≡ true → in_use s.pages x ≡ false
  pub taken :
      (x : ℕ)
      → in_use o.1.pages x
        ≡ (if o.0 == 0 then false else in_range o.0 s.object_size x) || in_use s.pages x
  pub given : base ≢ 0 → is_empty s.pages ≡ false → o.0 ≢ 0

module _ (base : ℕ) (s : Slab) (sound : IsSlab s) where
  grown :
      (s.object_size + page_header ≤ next_page_size s.page_size)
      × (next_page_size s.page_size < 2 ^ 64)
  unfolding next_page_size
  grown = (ground (arith, sound.fits, sound.small), ground (arith, sound.fits, sound.small))

  -- An object out of a page that has room for it.
  hand-Handed :
      (n : ℕ) (p : Page) (prev : List Page)
      → s.object_size + page_header ≤ n
      → n < 2 ^ 64
      → IsHead (p ∷ prev)
      → p.used + s.object_size ≤ p.capacity
      → ((x : ℕ) → in_use (p ∷ prev) x ≡ in_use s.pages x)
      → Handed base s (hand (record s { page_size = n }) p prev)
  unfolding hand
  hand-Handed n p prev fits small (within, cap, apart) room same = record {
    sound = record {
      sized = sound.sized;
      fits = fits;
      small = small;
      first = (omega (arith, room, cap), cap, apart);
    };
    object = refl;
    fresh = λ x ne h. ground (arith, apart x, same x);
    taken = λ x. ground (arith, same x);
    given = λ ne some_page. omega arith;
  }

  -- The block that nr_zalloc gives, if it gives one, has no object.
  abbrev IsFree : Type 0
  IsFree =
      (x : ℕ)
      → base ≢ 0
      → in_range base (next_page_size s.page_size) x ≡ true
      → in_use s.pages x ≡ false

  next_in-Handed : (l : List Page) → s.pages ≡ l → IsFree → Handed base s (next_in base s l)
  unfolding next_in
  next_in-Handed [] e free = record {
    sound = sound;
    object = refl;
    fresh = λ x ne h. absurd (ne refl);
    taken = λ x. refl;
    given = λ ne h. ground (arith, ap is_empty e);
  }
  next_in-Handed (p ∷ prev) e free =
      let first : IsHead (p ∷ prev) = subst IsHead e sound.first in
      elim (Bool-cases (ltb ((p.capacity + 2 ^ 64 - p.used) % 2 ^ 64) s.object_size)) [
        | inl full ↦ elim (Bool-cases (base == 0)) [
          | inl null ↦
              rw (full, null)
                (record {
                  sound = record {
                    sized = sound.sized;
                    fits = grown.0;
                    small = grown.1;
                    first = sound.first;
                  };
                  object = refl;
                  fresh = λ x ne h. absurd (ne refl);
                  taken = λ x. refl;
                  given = λ ne h. absurd (ground arith);
                })
          | inr there ↦
              rw (full, there)
                (hand-Handed (next_page_size s.page_size)
                  (record {
                    base = base;
                    capacity = next_page_size s.page_size - page_header;
                    used = 0;
                  })
                  (p ∷ prev) grown.0 grown.1
                  (
                    omega arith,
                    omega (arith, grown.1),
                    λ x h. subst (λ l. in_use l x ≡ false) e (free x (ground arith) (ground arith)),
                  )
                  (omega (arith, grown.0)) (λ x. ground (arith, ap (λ l. in_use l x) e)))
        ]
        | inr left ↦ rw left (
            hand-Handed s.page_size p prev sound.fits sound.small first
              (ground (arith, first.0, first.1)) (λ x. sym (ap (λ l. in_use l x) e)))
      ]

  -- nr_slab_next on a sound slab, where nr_zalloc gives, if it is asked and gives one, a block that
  -- has no object that was given out before. NULL changes none of them; it comes only where
  -- nr_zalloc gave none, or the slab has no page at all. Else the object's bytes were in no object
  -- given out before, and exactly those and the ones before are given out now. The slab is sound
  -- again, its objects inside their pages.
  pub next-Handed :
      ((x : ℕ)
        → base ≢ 0
        → in_range base (next_page_size s.page_size) x ≡ true
        → in_use s.pages x ≡ false)
      → Handed base s (next base s)
  unfolding next
  next-Handed free = next_in-Handed s.pages refl free

-- The slab that was created, or none.
abbrev IsCreated : Option Slab → Type 0
IsCreated none = Unit {0}
IsCreated (some s) = IsSlab s

create_sized-IsCreated :
    (base object_size page_size : ℕ)
    → 0 < object_size
    → object_size + page_header < 2 ^ 64
    → page_size < 2 ^ 64
    → IsCreated (create_sized base object_size page_size)
unfolding create_sized page_create
create_sized-IsCreated base object_size page_size some_bytes small bound =
    elim (Bool-cases (ltb page_size ((object_size + page_header) % 2 ^ 64))) [
      | inl tight ↦ rw tight tt
      | inr roomy ↦
          let fits : object_size + page_header ≤ page_size = ground (arith, small) in
          elim (Bool-cases (base == 0)) [
            | inl null ↦
                rw (roomy, null)
                  (record { sized = some_bytes; fits = fits; small = bound; first = tt })
            | inr there ↦
                rw (roomy, there)
                  (record {
                    sized = some_bytes;
                    fits = fits;
                    small = bound;
                    first = (omega arith, omega (arith, bound), λ x h. refl);
                  })
          ]
    ]

-- The rounded size holds the object.
aligned_size_lem :
    (object_size : ℕ)
    → object_size + 40 < 2 ^ 64
    → (object_size ≤ aligned_size object_size)
      × (aligned_size object_size < object_size + 16)
      × (aligned_size object_size % 16 ≡ 0)
unfolding aligned_size
aligned_size_lem object_size small = (ground arith, ground arith, ground arith)

first_page_size-small :
    (object_size page_size sys_page_size : ℕ)
    → first_page_size object_size page_size sys_page_size < 2 ^ 64
unfolding first_page_size
first_page_size-small object_size page_size sys_page_size = ground arith

-- nr_slab_create, for objects that are not too large for rounding, answers NULL or a sound slab.
pub create_slab-IsCreated :
    (base sys_page_size object_size page_size : ℕ)
    → object_size + 40 < 2 ^ 64
    → IsCreated (create_slab base sys_page_size object_size page_size)
unfolding create_slab
create_slab-IsCreated base sys_page_size object_size page_size small =
    let (large, near, whole) = aligned_size_lem object_size small in
    elim (Bool-cases (object_size == 0)) [
      | inl zero ↦ rw zero tt
      | inr some_bytes ↦ rw some_bytes (
          create_sized-IsCreated base (aligned_size object_size) _ (ground (arith, large))
            (omega (arith, near, small))
            (first_page_size-small (aligned_size object_size) page_size _))
    ]
