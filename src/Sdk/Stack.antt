-- ===== src/Sdk/Stack.antt =====
-- src/stack.c: the backtrace of the process as a JSON array. The array of objects is axiom's
-- (util_object.h), a parameter: a new one, a write of a string at an index, and its JSON.
use c_sdk.Base.{ℕ, ◌≡◌, refl, ap, sym, ◌∙◌, List, [], ◌∷◌, ◌++◌, CStr, codes}

-- Where there is backtrace(3), the lines that it gives, at most a hundred.
pub data Backtrace : Type 0 where
  unsupported : Backtrace
  frames : List CStr → Backtrace

module _ {A : Type 0} (new_array : A) (set_array_string : A → ℕ → CStr → A)
    (to_json : A → CStr) where
  -- The loop over the lines; an index of 0 is the end of the array.
  unfoldable pub add_lines : A → List CStr → A
  add_lines array [] = array
  add_lines array (line ∷ lines) = add_lines (set_array_string array 0 line) lines

  unfoldable pub get_stack_trace_as_json : Backtrace → CStr
  unfolding add_lines
  get_stack_trace_as_json unsupported = codes "[\"No backtrace on this platform.\"]"
  get_stack_trace_as_json (frames lines) = to_json (add_lines new_array lines)

append_assoc : (l : List CStr) (x : CStr) (r : List CStr) → (l ++ (x ∷ [])) ++ r ≡ l ++ (x ∷ r)
append_assoc [] x r = refl
append_assoc (y ∷ l) x r = ap (λ z. y ∷ z) (append_assoc l x r)

append_nil : (l : List CStr) → l ++ [] ≡ l
append_nil [] = refl
append_nil (y ∷ l) = ap (λ z. y ∷ z) (append_nil l)

module _ {A : Type 0} (new_array : A) (set_array_string : A → ℕ → CStr → A) (to_json : A → CStr)
    (strings : A → List CStr) (json_of : List CStr → CStr) (empty : strings new_array ≡ [])
    (appended : (a : A) (s : CStr) → strings (set_array_string a 0 s) ≡ strings a ++ (s ∷ []))
    (printed : (a : A) → to_json a ≡ json_of (strings a)) where
  strings-add_lines :
      (a : A) (lines : List CStr)
      → strings (add_lines new_array set_array_string to_json a lines) ≡ strings a ++ lines
  unfolding add_lines
  strings-add_lines a [] = sym (append_nil (strings a))
  strings-add_lines a (line ∷ lines) =
      strings-add_lines (set_array_string a 0 line) lines
      ∙ (ap (λ l. l ++ lines) (appended a line) ∙ append_assoc (strings a) line lines)

  -- With an array of axiom that starts empty, to which a write at the index 0 appends, and whose
  -- JSON depends on its strings only, newrelic_get_stack_trace_as_json returns the JSON of the lines
  -- of the backtrace, all of them and in their order.
  pub get_stack_trace_as_json-frames :
      (lines : List CStr)
      → get_stack_trace_as_json new_array set_array_string to_json (frames lines) ≡ json_of lines
  unfolding get_stack_trace_as_json
  get_stack_trace_as_json-frames lines =
      printed (add_lines new_array set_array_string to_json new_array lines)
      ∙ ap json_of (strings-add_lines new_array lines ∙ ap (λ l. l ++ lines) empty)
