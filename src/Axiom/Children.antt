-- ===== src/Axiom/Children.antt =====
-- vendor/newrelic/axiom/nr_segment_children.h, nr_segment_children_private.h and
-- nr_segment_children.c: the children of a segment, up to eight in place and more in a vector. The
-- two share their first word, and its lowest bit says which it is: the flag `is_packed`, and the
-- lowest bit of the vector's capacity (on a little-endian machine, as the SDK's are). A vector of
-- odd capacity is therefore read as packed.
pub mod Sound
pub mod Remove
pub mod Misread
pub mod Sequence
pub mod Neighbours
use c_sdk.Base.{
  ℕ, zero, suc, ◌+◌, ◌-◌, ◌*◌, ◌%◌, Bool, true, false, ◌&&◌, ◌||◌, Option, none, some, ltb, leb,
  ◌==◌, if◌then◌else◌,
}
use c_sdk.Axiom.Vector
use c_sdk.Axiom.Vector.{Vector, memmove, store, push_back, find_first, ensure}

-- The member of the union that was written last.
pub data Children : Type 0 where
  packed : (count : ℕ) (elements : ℕ → ℕ) → Children
  vector : Vector → Children

-- `NR_SEGMENT_CHILDREN_PACKED_LIMIT`
abbrev pub packed_limit : ℕ
packed_limit = 8

-- What `header.is_packed` reads from a vector.
abbrev pub reads_packed : Vector → Bool
reads_packed v = v.capacity % 2 == 1

unfoldable pub init : Children
init = packed 0 (λ _. 0)

-- The results below are `none` where a vector is read as packed, so that its fields are taken for
-- pointers.
unfoldable pub size : Children → Option ℕ
size (packed count e) = some count
size (vector v) = if reads_packed v then none else some v.used

unfoldable pub get : Children → ℕ → Option (Option ℕ)
get (packed count e) i = some (if leb count i then none else some (e i))
get (vector v) i =
    if reads_packed v then none else some (if leb v.used i then none else some (v.elements i))

unfoldable pub deinit : Children → Children
deinit c = init

-- `nr_segment_children_migrate_to_vector`, of a packed structure.
unfoldable pub migrate_to_vector : ℕ → (ℕ → ℕ) → Vector
migrate_to_vector count e =
    if count == 0
    then Vector.init packed_limit
    else record { capacity = count * 2; used = count; elements = e }

-- The first cell below a bound that holds an element.
unfoldable pub index_of : (ℕ → ℕ) → ℕ → ℕ → Option ℕ
index_of e zero x = none
index_of e (suc n) x = elim (index_of e n x) [
  | some i ↦ some i
  | none ↦ if e n == x then some n else none
]

-- The packed case of `nr_segment_children_remove`, with at least one child: the last child is
-- tried first, then the others in order.
unfoldable pub remove_index : ℕ → (ℕ → ℕ) → Option ℕ → Bool × Children
remove_index count e none = (false, packed count e)
remove_index count e (some i) = (true, packed (count - 1) (memmove e i (i + 1) (count - i - 1)))

unfoldable pub remove_packed : ℕ → (ℕ → ℕ) → ℕ → Bool × Children
remove_packed count e child =
    if e (count - 1) == child
    then (true, packed (count - 1) e)
    else remove_index count e (index_of e (count - 1) child)

-- The loop that gives the children, which are not NULL, their new parent. `parents` is the field
-- `parent` of each segment.
unfoldable adopt : ℕ → (ℕ → ℕ) → (new_parent : ℕ) → (parents : ℕ → ℕ) → ℕ → ℕ
unfolding store
adopt zero from new_parent parents = parents
adopt (suc n) from new_parent parents = store (adopt n from new_parent parents) (from n) new_parent

module _ (room : ℕ → Bool) where
  unfoldable pub add_vector : Vector → ℕ → Children
  add_vector v child = vector (push_back room v child).1

  -- `none` for a NULL child is `some (false, …)`.
  unfoldable pub add : Children → ℕ → Option (Bool × Children)
  unfolding migrate_to_vector add_vector
  add (packed count e) child =
      if child == 0
      then some (false, packed count e)
      else if ltb packed_limit (count + 1)
      then some (true, add_vector (migrate_to_vector count e) child)
      else some (true, packed (count + 1) (store e count child))
  add (vector v) child =
      if child == 0
      then some (false, vector v)
      else if reads_packed v
      then none
      else some (true, add_vector v child)

  unfoldable pub remove_at : Vector → Option (Option ℕ) → Option (Bool × Children)
  remove_at v none = none
  remove_at v (some none) = some (false, vector v)
  remove_at v (some (some index)) = elim (Vector.remove room v index) [
    | none ↦ some (false, vector v)
    | some (x, v') ↦ some (true, vector v')
  ]

  unfoldable pub remove : Children → ℕ → Option (Bool × Children)
  remove (packed count e) child =
      if child == 0 || count == 0
      then some (false, packed count e)
      else some (remove_packed count e child)
  remove (vector v) child =
      if reads_packed v
      then none
      else if child == 0 || v.used == 0
      then some (false, vector v)
      else remove_at v (find_first (λ e. e == child) v)

  -- The array that `nr_segment_children_reparent` copies from, with its length.
  source : Children → Option (ℕ × (ℕ → ℕ))
  source (packed count e) = some (count, e)
  source (vector v) = if reads_packed v then none else some (v.used, v.elements)

  -- `nr_memcpy` of the children behind those that the new parent has.
  abbrev pub copied : (ℕ → ℕ) → ℕ → (ℕ → ℕ) → ℕ → ℕ → ℕ
  copied e n from size i = if leb n i && ltb i (n + size) then from (i - n) else e i

  append_vector : Vector → ℕ → (ℕ → ℕ) → Children
  append_vector v size from =
      let (b, v') = ensure room v (size + v.used) in
      vector (record v' { used = size + v.used; elements = copied v'.elements v.used from size })

  append_to : Children → ℕ → (ℕ → ℕ) → Option Children
  unfolding append_vector migrate_to_vector
  append_to (packed count e) size from =
      if ltb packed_limit (size + count)
      then some (append_vector (migrate_to_vector count e) size from)
      else some (packed (size + count) (copied e count from size))
  append_to (vector v) size from = if reads_packed v then none else some (append_vector v size from)

  reparent_from :
      Children
      → Children
      → ℕ
      → (ℕ → ℕ)
      → Option (ℕ × (ℕ → ℕ))
      → Option (Children × Children × (ℕ → ℕ))
  unfolding adopt
  reparent_from children parent new_parent parents none = none
  reparent_from children parent new_parent parents (some (size, from)) =
      if size == 0 then some (children, parent, parents) else elim (append_to parent size from) [
        | none ↦ none
        | some p ↦ some (deinit children, p, adopt size from new_parent parents)
      ]

  -- `nr_segment_children_reparent`: the children, those of the new parent, and the parents of all
  -- segments, after it.
  unfoldable pub reparent :
      Children
      → Children
      → (new_parent : ℕ) → (parents : ℕ → ℕ) → Option (Children × Children × (ℕ → ℕ))
  unfolding reparent_from append_to source deinit
  reparent children parent new_parent parents =
      reparent_from children parent new_parent parents (source children)
