-- ===== src/Axiom/Slab.antt =====
-- vendor/newrelic/axiom/util_slab.c: objects of one size out of pages. A page is named by the address
-- that nr_zalloc gave it, 0 for NULL, which is an argument of the functions that ask for one; sizes
-- are of 64 bits.
pub mod Next
use c_sdk.Base.{
  ℕ, ◌+◌, ◌-◌, ◌*◌, ◌/◌, ◌%◌, ◌^◌, ◌≡◌, Bool, false, ◌&&◌, ◌||◌, Option, none, some, List, [], ◌∷◌,
  ◌==◌, ltb, leb, if◌then◌else◌,
}

-- `nr_slab_page_t`
pub record Page : Type 0 where
  pub base : ℕ
  pub capacity : ℕ
  pub used : ℕ

-- `nr_slab_t`, with the pages from `head` on
pub record Slab : Type 0 where
  pub pages : List Page
  pub object_size : ℕ
  pub page_size : ℕ

-- `sizeof(nr_slab_page_t)`: a pointer and two sizes
abbrev pub page_header : ℕ
page_header = 24

-- `nr_slab_page_create`; its page is put in front of the others.
unfoldable pub page_create : (base page_size : ℕ) → List Page → List Page
page_create base page_size prev =
    record { base = base; capacity = page_size - page_header; used = 0 } ∷ prev

-- The size of an object, rounded up to 16 bytes.
unfoldable pub aligned_size : ℕ → ℕ
aligned_size object_size =
    if object_size % 16 == 0 then object_size else (16 * (object_size / 16 + 1)) % 2 ^ 64

-- The size of the first page, in whole pages of the system.
unfoldable pub first_page_size : (object_size page_size sys_page_size : ℕ) → ℕ
first_page_size object_size page_size sys_page_size =
    if page_size == 0
    then (sys_page_size * ((object_size * 4) % 2 ^ 64 / sys_page_size + 1)) % 2 ^ 64
    else (sys_page_size
        * ((if page_size % sys_page_size == 0 then 0 else 1) + page_size / sys_page_size))
      % 2 ^ 64

-- The end of `nr_slab_create`, with the sizes that it computed.
unfoldable pub create_sized : (base object_size page_size : ℕ) → Option Slab
create_sized base object_size page_size =
    if ltb page_size ((object_size + page_header) % 2 ^ 64)
    then none
    else some (record {
      pages = if base == 0 then [] else page_create base page_size [];
      object_size = object_size;
      page_size = page_size;
    })

-- `nr_slab_create`; `sys_page_size` is what sysconf answers, 0 for what is not positive.
unfoldable pub create_slab : (base sys_page_size object_size page_size : ℕ) → Option Slab
create_slab base sys_page_size object_size page_size =
    if object_size == 0
    then none
    else create_sized base (aligned_size object_size) (
        first_page_size (aligned_size object_size) page_size
          (if sys_page_size == 0 then 4096 else sys_page_size))

-- The object at the end of the used part of the first page.
unfoldable pub hand : Slab → Page → List Page → ℕ × Slab
hand slab p prev = (
  p.base + page_header + p.used,
  record slab { pages = record p { used = (p.used + slab.object_size) % 2 ^ 64 } ∷ prev },
)

-- The page size of the next page.
unfoldable pub next_page_size : ℕ → ℕ
next_page_size page_size =
    if leb page_size (4 * 1024 * 1024) then (page_size * 2) % 2 ^ 64 else page_size

-- `nr_slab_next`; `base` is what nr_zalloc answers if a page is needed.
unfoldable pub next_in : ℕ → Slab → List Page → ℕ × Slab
next_in base slab [] = (0, slab)
next_in base slab (p ∷ prev) =
    if ltb ((p.capacity + 2 ^ 64 - p.used) % 2 ^ 64) slab.object_size
    then if base == 0
      then (0, record slab { page_size = next_page_size slab.page_size })
      else hand (record slab { page_size = next_page_size slab.page_size })
          (record { base = base; capacity = next_page_size slab.page_size - page_header; used = 0 })
          (p ∷ prev)
    else hand slab p prev

unfoldable pub next : ℕ → Slab → ℕ × Slab
next base slab = next_in base slab slab.pages
