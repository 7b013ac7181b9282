-- ===== src/Jvm/Desc/Slots.antt =====
-- Argument slots, the shorty, and the two spellings of a class name.
use mocha.Prelude.{
  All, Bool, List, [], arith, drop, false, if◌then◌else◌, length, ltb, ok, ℕ, ◌%◌, ◌*◌, ◌+◌, ◌==◌,
  ◌||◌, ◌∷◌, ◌≡◌, ◌≤◌,
}
use mocha.Jvm.Desc.{
  DescType, Kind, Method, arg_slots, base_char, check_arg_slots, invalid, is_object, is_ref,
  kind_slots, params_slots, shorty, shorty_char, shorty_params, slots, void,
}
use mocha.Jvm.Desc.Fields.{IsElement, IsType}
use mocha.Jvm.Desc.Methods.{IsMethod}

-- What one character of a shorty stands for.
abbrev pub char_slots : ℕ → ℕ
char_slots c = if c == b'J' || c == b'D' then 2 else 1

abbrev pub shorty_slots : List ℕ → ℕ
shorty_slots [] = 0
shorty_slots (c ∷ s) = char_slots c + shorty_slots s

slots-shorty_char : (t : DescType) → IsType false t → slots t ≡ char_slots (shorty_char t)
unfolding slots shorty_char is_ref
slots-shorty_char t (fits, h) = go t.kind h
  where
    go :
        (kind : Kind)
        → IsElement false kind t.dims t.name
        → (if ltb 0 t.dims then 1 else kind_slots kind)
          ≡ char_slots (if ltb 0 t.dims || is_object kind then b'L' else base_char kind)
    go invalid h = absurd h
    go void h = ground arith
    go kind h = ground arith

params_slots-shorty_params :
    (n : ℕ) (ps : List DescType)
    → All (IsType false) ps
    → params_slots n ps ≡ n + shorty_slots (shorty_params ps)
unfolding params_slots
params_slots-shorty_params n [] h = omega arith
params_slots-shorty_params n (p ∷ ps) (hp, h) =
    omega (arith, slots-shorty_char p hp, params_slots-shorty_params (n + slots p) ps h)

-- The argument slots can be read off the shorty: two for each J or D behind its first character,
-- one for any other, and one for a receiver.
pub arg_slots-shorty :
    (m : Method) (receiver : Bool)
    → IsMethod m
    → arg_slots m receiver ≡ (if receiver then 1 else 0) + shorty_slots (drop 1 (shorty m))
unfolding arg_slots shorty
arg_slots-shorty m receiver (h, ht) = params_slots-shorty_params _ m.params h

params_slots_bounds :
    (n : ℕ) (ps : List DescType)
    → All (IsType false) ps
    → (n + length ps ≤ params_slots n ps) × (params_slots n ps ≤ n + 2 * length ps)
unfolding params_slots
params_slots_bounds n [] h = omega arith
params_slots_bounds n (p ∷ ps) (hp, h) =
    ground (arith, slots-shorty_char p hp, params_slots_bounds (n + slots p) ps h)

-- A method that passes the check has at most 255 parameters, and its slot count is kept by the
-- byte that `invokeinterface` stores; a method of up to 127 parameters always passes.
pub check_arg_slots_bounds :
    (m : Method) (receiver : Bool)
    → IsMethod m
    → (check_arg_slots m receiver ≡ ok tt
        → (length m.params ≤ 255) × (arg_slots m receiver % 256 ≡ arg_slots m receiver))
      × (length m.params ≤ 127 → check_arg_slots m receiver ≡ ok tt)
unfolding check_arg_slots arg_slots
check_arg_slots_bounds m receiver (h, ht) = (
  λ e. ground (arith, params_slots_bounds (if receiver then 1 else 0) m.params h),
  λ e. ground (arith, params_slots_bounds (if receiver then 1 else 0) m.params h),
)
