-- ===== src/Axiom/Children/Sequence.antt =====
-- Any sequence of additions and removals on the children of a segment, against a list.
use c_sdk.Base.{
  ℕ, zero, suc, ◌+◌, ◌^◌, ◌≤◌, ◌<◌, ◌≡◌, ◌≢◌, refl, ap, sym, Bool, true, false, Option, none, some,
  List, [], ◌∷◌, ◌++◌, arith, length, get_elem?, length-append,
}
use c_sdk.Axiom.Vector.Contents.{remove_list, length-cells}
use c_sdk.Axiom.Children.{Children, packed, vector, size, add, remove}
use c_sdk.Axiom.Children.Sound.{IsSound, children_of, Added, add-Added, Doubled-even}
use c_sdk.Axiom.Children.Remove.{Dropped, missing, dropped, remove-Dropped}

-- The calls that the tree of segments makes when a child comes and goes.
pub data ChildOp : Type 0 where
  add_op : ℕ → ChildOp
  remove_op : ℕ → ChildOp

-- What one call may do to a list of children: NULL is refused, a child is added behind the others,
-- one occurrence of a child is removed, and a child that is not there is not.
pub data Step (l : List ℕ) : ChildOp → List ℕ → Type 0 where
  added : (x : ℕ) → x ≢ 0 → Step l (add_op x) (l ++ (x ∷ []))
  removed : (x i : ℕ) → get_elem? l i ≡ some x → Step l (remove_op x) (remove_list l i)
  not_there : (x : ℕ) → ((i : ℕ) → get_elem? l i ≢ some x) → Step l (remove_op x) l
  null_added : Step l (add_op 0) l
  null_removed : Step l (remove_op 0) l

-- The calls in order.
pub data Steps : List ℕ → List ChildOp → List ℕ → Type 0 where
  finished : (l : List ℕ) → Steps l [] l
  next :
      (op : ChildOp) (ops : List ChildOp) (l l' l'' : List ℕ)
      → Step l op l'
      → Steps l' ops l''
      → Steps l (op ∷ ops) l''

remove_list-le : (l : List ℕ) (i : ℕ) → length (remove_list l i) ≤ length l
unfolding remove_list
remove_list-le [] i = omega arith
remove_list-le (x ∷ l) zero = omega arith
remove_list-le (x ∷ l) (suc i) = omega (arith, remove_list-le l i)

pub size-IsSound : (c : Children) → IsSound c → size c ≡ some (length (children_of c))
unfolding size
size-IsSound (packed n e) sound = ap some (sym (length-cells e n))
size-IsSound (vector v) (valid, d) =
    rw (Doubled-even v.capacity d) (ap some (sym (length-cells v.elements v.used)))

module _ (room : ℕ → Bool) where
  pub run_child : ChildOp → Children → Option (Bool × Children)
  run_child (add_op x) c = add room c x
  run_child (remove_op x) c = remove room c x

  pub run_children : List ChildOp → Children → Option Children
  run_children [] c = some c
  run_children (op ∷ ops) c = elim (run_child op c) [
    | none ↦ none
    | some (b, c') ↦ run_children ops c'
  ]

-- The state of a structure after some calls.
pub record Reached (ops : List ChildOp) (l : List ℕ) (o : Option Children) : Type 0 where
  pub result : Children
  pub is : o ≡ some result
  pub sound : IsSound result
  pub size_of : size result ≡ some (length (children_of result))
  pub steps : Steps l ops (children_of result)

-- The same for one call.
record Made (op : ChildOp) (l : List ℕ) (o : Option (Bool × Children)) : Type 0 where
  pub status : Bool
  pub result : Children
  pub is : o ≡ some (status, result)
  pub sound : IsSound result
  pub longer : length (children_of result) ≤ suc (length l)
  pub step : Step l op (children_of result)

module _ (room : ℕ → Bool) (granted : (n : ℕ) → room n ≡ true) where
  add-null : (c : Children) → IsSound c → add room c 0 ≡ some (false, c)
  unfolding add
  add-null (packed n e) sound = refl
  add-null (vector v) sound = refl

  remove-null : (c : Children) → IsSound c → remove room c 0 ≡ some (false, c)
  unfolding remove
  remove-null (packed n e) sound = refl
  remove-null (vector v) (valid, d) = rw (Doubled-even v.capacity d) refl

  Dropped-Made :
      (c : Children) (x : ℕ) (o : Option (Bool × Children))
      → IsSound c
      → Dropped c x o
      → Made (remove_op x) (children_of c) o
  Dropped-Made c x o sound (missing h) = record {
    status = false;
    result = c;
    is = refl;
    sound = sound;
    longer = omega arith;
    step = not_there x h;
  }
  Dropped-Made c x o sound (dropped i c' at rest sound') = record {
    status = true;
    result = c';
    is = refl;
    sound = sound';
    longer = omega (arith, ap length rest, remove_list-le (children_of c) i);
    step = rw rest (removed x i at);
  }

  run_child-Made :
      (op : ChildOp) (c : Children)
      → IsSound c
      → length (children_of c) < 2 ^ 62
      → Made op (children_of c) (run_child room op c)
  unfolding run_child
  run_child-Made (add_op zero) c sound small = record {
    status = false;
    result = c;
    is = add-null c sound;
    sound = sound;
    longer = omega arith;
    step = null_added;
  }
  run_child-Made (add_op (suc x)) c sound small =
      let a : Added c (suc x) (add room c (suc x)) =
        add-Added room granted c (suc x) sound (omega arith) small in
      record {
        status = true;
        result = a.result;
        is = a.is;
        sound = a.sound;
        longer = omega (arith, ap length a.appended, length-append (children_of c) (suc x ∷ []));
        step = rw a.appended (added (suc x) (omega arith));
      }
  run_child-Made (remove_op zero) c sound small = record {
    status = false;
    result = c;
    is = remove-null c sound;
    sound = sound;
    longer = omega arith;
    step = null_removed;
  }
  run_child-Made (remove_op (suc x)) c sound small =
      Dropped-Made c (suc x) (remove room c (suc x)) sound
        (remove-Dropped room c (suc x) sound (omega arith))

  -- Any sequence of nr_segment_children_add and nr_segment_children_remove on a sound structure,
  -- with an allocator that grants all requests, where the children and the calls together are fewer
  -- than 2 ^ 62: no call misreads the structure, which ends sound, with the size of its contents,
  -- and the contents are what these calls can make of the list of the children there were.
  pub run_children-Reached :
      (ops : List ChildOp) (c : Children)
      → IsSound c
      → length (children_of c) + length ops < 2 ^ 62
      → Reached ops (children_of c) (run_children room ops c)
  unfolding run_children
  run_children-Reached [] c sound small = record {
    result = c;
    is = refl;
    sound = sound;
    size_of = size-IsSound c sound;
    steps = finished (children_of c);
  }
  run_children-Reached (op ∷ ops) c sound small =
      let m : Made op (children_of c) (run_child room op c) =
        run_child-Made op c sound (omega arith) in
      let r : Reached ops (children_of m.result) (run_children room ops m.result) =
        run_children-Reached ops m.result m.sound (omega (arith, m.longer)) in
      rw (m.is, run_children)
        (record {
          result = r.result;
          is = r.is;
          sound = r.sound;
          size_of = r.size_of;
          steps =
              next op ops (children_of c) (children_of m.result) (children_of r.result) m.step
                r.steps;
        })
