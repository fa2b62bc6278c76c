-- ===== src/Axiom/Stack/Laws.antt =====
-- What a stack promises: what is pushed comes off first, and the topmost occurrence is what goes.
use c_sdk.Base.{
  ℕ, suc, ◌-◌, ◌^◌, ◌<◌, ◌≡◌, ap, sym, ◌∙◌, Bool, true, false, Option, none, some, [], ◌∷◌, ◌++◌,
  arith, ◌==◌, length, length-append, get_elem?,
}
use c_sdk.Axiom.Vector.{Vector, push_back, pop_back, insert, find_last, remove}
use c_sdk.Axiom.Vector.Capacity.{IsValid}
use c_sdk.Axiom.Vector.Contents.{
  contents, insert_list, remove_list, Inserted, insert-Inserted, Removed, remove-Removed,
  length-cells, insert_list-length, remove_list-append, get_elem?-last,
}
use c_sdk.Axiom.Vector.Find.{IsLast, Answers, find_last-IsLast}
use c_sdk.Axiom.Stack.{push, pop, remove_found, remove_topmost}

abbrev Any : ℕ → Type 0
Any k = Unit {0}

-- What was pushed last comes off first and leaves the elements that were there.
pub record Popped (s : Vector) (x : ℕ) (o : Option (ℕ × Vector)) : Type 0 where
  pub rest : Vector
  pub is : o ≡ some (x, rest)
  pub contents_of : contents rest ≡ contents s
  pub valid : IsValid rest

module _ (room : ℕ → Bool) (granted : (n : ℕ) → room n ≡ true) (s : Vector) (x : ℕ)
    (valid : IsValid s) (small : s.used < 2 ^ 62) where
  pushed : Inserted Any s s.used x (insert room s s.used x)
  pushed =
      insert-Inserted room granted {P = Any} (λ k u. tt) s s.used x valid (omega arith) small tt tt

  -- A push puts the element at the end.
  pub contents-push : (contents (push room s x) ≡ contents s ++ (x ∷ [])) × IsValid (push room s x)
  unfolding push push_back
  contents-push = (
    pushed.contents_of
        ∙ (ap (λ n. insert_list (contents s) n x) (sym (length-cells s.elements s.used))
            ∙ insert_list-length (contents s) x),
    pushed.valid,
  )

  size_of : length (contents s) ≡ s.used
  size_of = length-cells s.elements s.used

  pub used-push : (push room s x).used ≡ suc s.used
  used-push = omega (
    arith,
    length-cells (push room s x).elements (push room s x).used,
    ap length contents-push.0,
    length-append (contents s) (x ∷ []),
    size_of,
  )

  last : (push room s x).used - 1 ≡ length (contents s)
  last = omega (arith, used-push, size_of)

  removed :
      Removed Any
        (push room s x)
        (length (contents s))
        (remove room (push room s x) (length (contents s)))
  removed =
      remove-Removed room {P = Any} (λ k u l. tt) (push room s x) (length (contents s))
        contents-push.1 (omega (arith, used-push, size_of)) tt

  element_of : removed.element ≡ x
  element_of = ground (
    arith,
    removed.element_of,
    ap (λ l. get_elem? l (length (contents s))) contents-push.0,
    get_elem?-last (contents s) x,
  )

  -- On a valid stack of fewer than 2 ^ 62 elements, with an allocator that grants all requests, a
  -- nr_stack_pop after a nr_stack_push returns the element that was pushed and leaves the contents
  -- from before, in a valid stack.
  pub pop-push : Popped s x (pop room (push room s x))
  unfolding pop pop_back
  pop-push =
      let some_left : ((push room s x).used == 0) ≡ false = ground (arith, used-push) in
      rw (some_left, last)
        (record {
          rest = removed.rest;
          is = removed.is ∙ ap (λ e. some (e, removed.rest)) element_of;
          contents_of =
              removed.contents_of
              ∙ (ap (λ l. remove_list l (length (contents s))) contents-push.0
                  ∙ remove_list-append (contents s) x);
          valid = removed.valid;
        })

-- The outcome of removing an element: nothing changes where it does not occur, and else the last
-- occurrence goes.
pub data RemovedTop (s : Vector) (x : ℕ) : Option (Bool × Vector) → Type 0 where
  missing : ((j : ℕ) → j < s.used → (s.elements j == x) ≡ false) → RemovedTop s x (some (false, s))
  found :
      (i : ℕ) (s' : Vector)
      → IsLast (λ e. e == x) s (some i)
      → contents s' ≡ remove_list (contents s) i
      → IsValid s'
      → RemovedTop s x (some (true, s'))

module _ (room : ℕ → Bool) (s : Vector) (x : ℕ) (valid : IsValid s) where
  remove_found-RemovedTop :
      (o : Option (Option ℕ))
      → Answers (λ e. e == x) s (IsLast (λ e. e == x) s) o
      → RemovedTop s x (remove_found room s o)
  unfolding remove_found
  remove_found-RemovedTop none a = absurd a
  remove_found-RemovedTop (some none) a = missing a
  remove_found-RemovedTop (some (some i)) a =
      let r : Removed Any s i (remove room s i) =
        remove-Removed room {P = Any} (λ k u l. tt) s i valid a.0 tt in
      rw (r.is, remove_found) (found i r.rest a r.contents_of r.valid)

  -- nr_stack_remove_topmost on a valid stack ends. Its topmost occurrence of the element is removed
  -- and no other, or the element does not occur, the result is false and nothing changes.
  pub remove_topmost-RemovedTop : RemovedTop s x (remove_topmost room s x)
  unfolding remove_topmost
  remove_topmost-RemovedTop =
      remove_found-RemovedTop (find_last (λ e. e == x) s)
        (find_last-IsLast (λ e. e == x) s (omega (arith, valid)))
