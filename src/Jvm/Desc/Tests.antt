-- ===== src/Jvm/Desc/Tests.antt =====
-- Runs of the parsers, and the theorems at concrete inputs.
use mocha.Prelude.{
  List, [], arith, drop, err, false, length, ok, refl, stuck, true, ℕ, ◌%◌, ◌+◌, ◌↔◌, ◌∷◌, ◌≡◌, ◌≢◌,
  ◌≤◌,
}
use mocha.Jvm.Desc.{
  DescType, Kind, Method, arg_slots, check_arg_slots, is_ref, long, method_string, object,
  parse_field, parse_method, parse_return, parse_type, shorty, shorty_char, trailing_bytes,
  type_string, void, void_field,
}
use mocha.Jvm.Desc.Fields.{IsType, parse_field_iff}
use mocha.Jvm.Desc.Methods.{IsMethod, parse_method-ne-stuck, parse_method_iff}
use mocha.Jvm.Desc.Slots.{arg_slots-shorty, check_arg_slots_bounds, shorty_slots}
use Prim.Native.Char.{code}
use Prim.Native.String.{String}

abbrev codes : String → List ℕ
codes String.[] = []
codes (String.◌∷◌ c s) = code c ∷ codes s

abbrev strings : DescType
strings = record { kind = object; dims = 2; name = codes "a)b" }

abbrev plain : Kind → DescType
plain k = record { kind = k; dims = 0; name = [] }

abbrev sample : Method
sample = record { params = strings ∷ plain long ∷ []; ret = plain void }

parse_method-sample : parse_method (codes "([[La)b;J)V") ≡ ok sample
unfolding parse_method parse_type parse_return
parse_method-sample = refl

parse_field_void : parse_field (codes "V") ≡ err void_field
unfolding parse_field parse_type
parse_field_void = refl

parse_field_trailing : parse_field (codes "II") ≡ err trailing_bytes
unfolding parse_field parse_type
parse_field_trailing = refl

shorty-sample : shorty sample ≡ codes "VLJ"
unfolding shorty shorty_char is_ref
shorty-sample = refl

sample-IsMethod : IsMethod sample
sample-IsMethod = (
  ((omega arith, ((λ e. cc), omega arith)), ((omega arith, refl), tt)),
  (omega arith, (refl, refl, refl)),
)

parse_field_iff_example :
    (parse_field (codes "[[La)b;") ≡ ok strings)
    ↔ (IsType false strings × (type_string strings ≡ codes "[[La)b;"))
parse_field_iff_example = parse_field_iff (codes "[[La)b;") strings

parse_method_iff_example :
    (parse_method (codes "([[La)b;J)V") ≡ ok sample)
    ↔ (IsMethod sample × (method_string sample ≡ codes "([[La)b;J)V"))
parse_method_iff_example = parse_method_iff (codes "([[La)b;J)V") sample

parse_method-ne-stuck_example : parse_method (codes "(I") ≢ stuck
parse_method-ne-stuck_example = parse_method-ne-stuck (codes "(I")

arg_slots-shorty_example : arg_slots sample true ≡ 1 + shorty_slots (drop 1 (shorty sample))
arg_slots-shorty_example = arg_slots-shorty sample true sample-IsMethod

check_arg_slots_bounds_example :
    (check_arg_slots sample true ≡ ok tt
      → (length sample.params ≤ 255) × (arg_slots sample true % 256 ≡ arg_slots sample true))
    × (length sample.params ≤ 127 → check_arg_slots sample true ≡ ok tt)
check_arg_slots_bounds_example = check_arg_slots_bounds sample true sample-IsMethod
