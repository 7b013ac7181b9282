-- ===== src/Jvm/Desc.antt =====
-- jvm/desc/desc.go: field and method descriptors. A string is the list of its bytes.
pub mod Elements
pub mod Fields
pub mod Methods
pub mod Slots
mod Tests
use mocha.Prelude.{
  Bool, List, Option, Result, [], drop, err, false, if◌then◌else◌, length, ltb, none, not, ok,
  replicate, some, stuck, suc, take, true, zero, ℕ, ◌++◌, ◌+◌, ◌==◌, ◌>>=◌, ◌||◌, ◌∷◌,
}
use mathlib.Core.Option

pub data Kind : Type 0 where
  invalid void boolean byte char short int long float double object : Kind

abbrev pub max_dims : ℕ
max_dims = 255

abbrev pub max_arg_slots : ℕ
max_arg_slots = 255

-- `Type`; the element kind, the number of array dimensions, and the class name of an object.
pub record DescType : Type 0 where
  pub kind : Kind
  pub dims : ℕ
  pub name : List ℕ

pub data Reason : Type 0 where
  too_many_dims ends_after_bracket void_field unterminated_class empty_class : Reason
  unknown_character trailing_bytes not_a_method unterminated_params too_many_slots : Reason

abbrev is_object : Kind → Bool
is_object object = true
is_object _ = false

kind_slots : Kind → ℕ
kind_slots void = 0
kind_slots long = 2
kind_slots double = 2
kind_slots _ = 1

unfoldable pub slots : DescType → ℕ
unfolding kind_slots
slots t = if ltb 0 t.dims then 1 else kind_slots t.kind

unfoldable pub is_ref : DescType → Bool
is_ref t = ltb 0 t.dims || is_object t.kind

abbrev pub base_char : Kind → ℕ
base_char invalid = 0
base_char void = b'V'
base_char boolean = b'Z'
base_char byte = b'B'
base_char char = b'C'
base_char short = b'S'
base_char int = b'I'
base_char long = b'J'
base_char float = b'F'
base_char double = b'D'
base_char object = 0

abbrev pub element_string : Kind → List ℕ → List ℕ
element_string object name = b'L' ∷ (name ++ (b';' ∷ []))
element_string kind name = base_char kind ∷ []

-- `Type.String`
unfoldable pub type_string : DescType → List ℕ
type_string t = replicate t.dims b'[' ++ element_string t.kind t.name

-- `strings.IndexByte`, with `none` for -1
unfoldable pub index_byte : ℕ → List ℕ → Option ℕ
index_byte c [] = none
index_byte c (x ∷ s) = if x == c then some 0 else Option.map suc (index_byte c s)

-- The loop over leading brackets.
unfoldable pub count_dims : List ℕ → ℕ
count_dims [] = 0
count_dims (c ∷ s) = if c == b'[' then suc (count_dims s) else 0

-- The class name `s[i+1 : i+end]`, where `end` is one more than `j`.
unfoldable pub class_named : ℕ → ℕ → List ℕ → Result Reason (DescType × ℕ)
class_named dims j [] = err empty_class
class_named dims j name = ok (record { kind = object; dims = dims; name = name }, dims + j + 2)

unfoldable pub class_at : ℕ → List ℕ → Option ℕ → Result Reason (DescType × ℕ)
unfolding class_named
class_at dims rest none = err unterminated_class
class_at dims rest (some j) = class_named dims j (take j rest)

-- `case 'L'`, on the bytes behind it.
unfoldable pub parse_class : ℕ → List ℕ → Result Reason (DescType × ℕ)
unfolding class_at index_byte
parse_class dims rest = class_at dims rest (index_byte b';' rest)

abbrev base : Kind → ℕ → Result Reason (DescType × ℕ)
base k dims = ok (record { kind = k; dims = dims; name = [] }, dims + 1)

-- The switch on the byte behind the brackets.
unfoldable pub parse_element : Bool → ℕ → List ℕ → Result Reason (DescType × ℕ)
unfolding parse_class
parse_element allow_void dims [] = err ends_after_bracket
parse_element allow_void dims (c ∷ rest) =
    if c == b'V'
    then if not allow_void || ltb 0 dims then err void_field else base void dims
    else if c == b'Z'
    then base boolean dims
    else if c == b'B'
    then base byte dims
    else if c == b'C'
    then base char dims
    else if c == b'S'
    then base short dims
    else if c == b'I'
    then base int dims
    else if c == b'J'
    then base long dims
    else if c == b'F'
    then base float dims
    else if c == b'D'
    then base double dims
    else if c == b'L'
    then parse_class dims rest
    else err unknown_character

-- The type at the front of `s`, and the number of bytes that it takes.
unfoldable pub parse_type : List ℕ → Bool → Result Reason (DescType × ℕ)
unfolding parse_element count_dims
parse_type s allow_void =
    if ltb max_dims (count_dims s)
    then err too_many_dims
    else parse_element allow_void (count_dims s) (drop (count_dims s) s)

abbrev all_of : List ℕ → DescType × ℕ → Result Reason DescType
all_of s (t, n) = if not (n == length s) then err trailing_bytes else ok t

unfoldable pub parse_field : List ℕ → Result Reason DescType
parse_field s = parse_type s false >>= all_of s

unfoldable pub parse_return : List ℕ → Result Reason DescType
parse_return s = parse_type s true >>= all_of s

pub record Method : Type 0 where
  pub params : List DescType
  pub ret : DescType

-- The loop over the parameters, from `s[i:]` on; it returns what is left from ')' on.
unfoldable pub parse_params : ℕ → List ℕ → Result Reason (List DescType × List ℕ)
parse_params fuel [] = ok ([], [])
parse_params zero (c ∷ s) = if c == b')' then ok ([], c ∷ s) else stuck
parse_params (suc fuel) (c ∷ s) =
    let more = (do
      (t, n) ← parse_type (c ∷ s) false
      (ts, rest) ← parse_params fuel (drop n (c ∷ s))
      ok (t ∷ ts, rest)) in
    if c == b')' then ok ([], c ∷ s) else more

unfoldable pub parse_result : List DescType × List ℕ → Result Reason Method
parse_result (params, []) = err unterminated_params
parse_result (params, c ∷ rest) = do
  ret ← parse_return rest
  ok (record { params = params; ret = ret })

-- Each round takes a byte at least, so the length is fuel enough.
unfoldable pub parse_method : List ℕ → Result Reason Method
unfolding parse_params parse_result
parse_method [] = err not_a_method
parse_method (c ∷ s) =
    if ltb (length (c ∷ s)) 3 || not (c == b'(')
    then err not_a_method
    else parse_params (length s) s >>= parse_result

abbrev params_string : List DescType → List ℕ
params_string [] = []
params_string (p ∷ ps) = type_string p ++ params_string ps

-- `Method.String`
unfoldable pub method_string : Method → List ℕ
method_string m = b'(' ∷ (params_string m.params ++ (b')' ∷ type_string m.ret))

params_slots : ℕ → List DescType → ℕ
params_slots n [] = n
params_slots n (p ∷ ps) = params_slots (n + slots p) ps

unfoldable pub arg_slots : Method → Bool → ℕ
unfolding params_slots
arg_slots m receiver = params_slots (if receiver then 1 else 0) m.params

unfoldable pub check_arg_slots : Method → Bool → Result Reason Unit
check_arg_slots m receiver =
    if ltb max_arg_slots (arg_slots m receiver) then err too_many_slots else ok tt

unfoldable pub shorty_char : DescType → ℕ
shorty_char t = if is_ref t then b'L' else base_char t.kind

abbrev shorty_params : List DescType → List ℕ
shorty_params [] = []
shorty_params (p ∷ ps) = shorty_char p ∷ shorty_params ps

unfoldable pub shorty : Method → List ℕ
shorty m = shorty_char m.ret ∷ shorty_params m.params

-- `strings.ReplaceAll` of one byte by another
unfoldable pub replace_all : ℕ → ℕ → List ℕ → List ℕ
replace_all from to [] = []
replace_all from to (c ∷ s) = (if c == from then to else c) ∷ replace_all from to s

unfoldable pub internal : List ℕ → List ℕ
unfolding replace_all
internal binary = replace_all b'.' b'/' binary

unfoldable pub binary : List ℕ → List ℕ
unfolding replace_all
binary internal = replace_all b'/' b'.' internal
