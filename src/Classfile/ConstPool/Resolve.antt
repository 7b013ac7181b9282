-- ===== src/Classfile/ConstPool/Resolve.antt =====
-- classfile/constpool.go: the methods of `Pool` that resolve an index.
use mocha.Prelude.{
  Bool, List, Option, Result, [], bit_or, drop, err, false, get_elem?, if◌then◌else◌, leb, ltb,
  none, not, ok, set, some, stuck, take, true, ℕ, ◌%◌, ◌&&◌, ◌<<<◌, ◌==◌, ◌^◌, ◌||◌, ◌∷◌,
}
use mocha.Classfile.ConstPool.{
  BootstrapMethod, ConstPool, Handle, PoolRef, RawEntry, is_wide_tag, is_word_tag, tag_dynamic,
  tag_invoke_dynamic, tag_method_handle, tag_module, tag_package,
}
use mocha.Classfile.Pool.{
  tag_class, tag_fieldref, tag_interface_methodref, tag_method_type, tag_methodref,
  tag_name_and_type, tag_string, tag_utf8,
}
use mocha.Jvm.Mutf8.{decode}

pub data PoolReadError : Type 0 where
  index_zero out_of_range unusable_slot wrong_tag bad_text not_a_member : PoolReadError
  bad_kind bad_form interface_too_new bad_name not_dynamic no_bootstrap : PoolReadError
  class_not_loadable not_loadable : PoolReadError

-- A method of the pool: its result, and the pool with the texts that it decoded.
abbrev pub L : Type 0 → Type 0
L A = ConstPool → Result PoolReadError A × ConstPool

abbrev pub give : {A : Type 0} → A → L A
give a p = (ok a, p)

abbrev pub refuse : {A : Type 0} → PoolReadError → L A
refuse e p = (err e, p)

abbrev pub resume :
    {A B : Type 0}
    → (A → L B)
    → Result PoolReadError A × ConstPool
    → Result PoolReadError B × ConstPool
resume f (ok a, p) = f a p
resume f (err e, p) = (err e, p)
resume f (stuck, p) = (stuck, p)

infixl 5 ◌>>=◌
abbrev pub ◌>>=◌ : {A B : Type 0} → L A → (A → L B) → L B
◌>>=◌ m f p = resume f (m p)

-- Whether an entry can be used, and with the tag wanted, where 0 wants none.
abbrev pub checked : ℕ → Option RawEntry → L RawEntry
checked want none = refuse out_of_range
checked want (some e) =
    if e.tag == 0
    then refuse unusable_slot
    else if not (want == 0) && not (e.tag == want)
    then refuse wrong_tag
    else give e

unfoldable pub at : ℕ → ℕ → L RawEntry
at i want p = (if i == 0 then refuse index_zero else checked want (get_elem? p.entries i)) p

abbrev pub kept_text : Option (Option (List ℕ)) → Option (List ℕ)
kept_text (some t) = t
kept_text none = none

abbrev pub keep_text : {E : Type 0} → ℕ → Result E (List ℕ) → L (List ℕ)
keep_text i (ok s) p = (ok s, record p { strs = set p.strs i (some s) })
keep_text i (err e) p = (err bad_text, p)
keep_text i stuck p = (stuck, p)

-- The bytes of a text are `src[a : a+b]`.
abbrev pub text_of : ℕ → RawEntry → L (List ℕ)
text_of i e p = elim (kept_text (get_elem? p.strs i)) [
  | some s ↦ (ok s, p)
  | none ↦ keep_text i (decode (take e.b (drop e.a p.src))) p
]

-- `UTF8`
unfoldable pub utf8_text : ℕ → L (List ℕ)
unfolding at decode
utf8_text i = do e ← at i tag_utf8; text_of i e

abbrev pub index_text : ℕ → ℕ → L (List ℕ)
index_text want i = do e ← at i want; utf8_text (e.a % 2 ^ 16)

-- `Class`, `Module`, `Package` and `MethodType`
unfoldable pub class_name_of : ℕ → L (List ℕ)
unfolding at utf8_text
class_name_of i = index_text tag_class i

unfoldable pub module_name_of : ℕ → L (List ℕ)
unfolding at utf8_text
module_name_of i = index_text tag_module i

unfoldable pub package_name_of : ℕ → L (List ℕ)
unfolding at utf8_text
package_name_of i = index_text tag_package i

unfoldable pub method_type_of : ℕ → L (List ℕ)
unfolding at utf8_text
method_type_of i = index_text tag_method_type i

-- `NameAndType`
unfoldable pub name_and_type_of : ℕ → L (List ℕ × List ℕ)
unfolding at utf8_text
name_and_type_of i = do
  e ← at i tag_name_and_type
  name ← utf8_text (e.a % 2 ^ 16)
  descriptor ← utf8_text (e.b % 2 ^ 16)
  give (name, descriptor)

abbrev pub is_member_tag : ℕ → Bool
is_member_tag tag = tag == tag_fieldref || tag == tag_methodref || tag == tag_interface_methodref

abbrev pub member_of : RawEntry → L PoolRef
member_of e = do
  c ← class_name_of (e.a % 2 ^ 16)
  nt ← name_and_type_of (e.b % 2 ^ 16)
  give (record { tag = e.tag; class_name = c; name = nt.0; descriptor = nt.1 })

-- `Ref`
unfoldable pub ref_of : ℕ → L PoolRef
unfolding at class_name_of name_and_type_of
ref_of i = do e ← at i 0; if is_member_tag e.tag then member_of e else refuse not_a_member

unfoldable pub field_ref_of : ℕ → L PoolRef
unfolding ref_of
field_ref_of i = do r ← ref_of i; if not (r.tag == tag_fieldref) then refuse wrong_tag else give r

unfoldable pub method_ref_of : ℕ → L PoolRef
unfolding ref_of
method_ref_of i = do r ← ref_of i; if r.tag == tag_fieldref then refuse wrong_tag else give r

-- The form of reference that a kind needs; `none` is no error.
abbrev pub form_error : ℕ → ℕ → ℕ → Option PoolReadError
form_error major kind tag =
    if leb kind 4
    then if tag == tag_fieldref then none else some bad_form
    else if kind == 5 || kind == 8
    then if tag == tag_methodref then none else some bad_form
    else if kind == 6 || kind == 7
    then if tag == tag_methodref
      then none
      else if tag == tag_interface_methodref
      then if leb 52 major then none else some interface_too_new
      else some bad_form
    else if tag == tag_interface_methodref
    then none
    else some bad_form

abbrev pub init_name : List ℕ
init_name = b'<' ∷ b'i' ∷ b'n' ∷ b'i' ∷ b't' ∷ b'>' ∷ []

abbrev pub clinit_name : List ℕ
clinit_name = b'<' ∷ b'c' ∷ b'l' ∷ b'i' ∷ b'n' ∷ b'i' ∷ b't' ∷ b'>' ∷ []

abbrev pub is_text : List ℕ → List ℕ → Bool
is_text [] [] = true
is_text (x ∷ xs) (y ∷ ys) = x == y && is_text xs ys
is_text _ _ = false

-- The names that a kind must or must not have.
abbrev pub name_error : ℕ → List ℕ → Option PoolReadError
name_error kind name =
    if kind == 8
    then if is_text name init_name then none else some bad_name
    else if leb 5 kind && (is_text name init_name || is_text name clinit_name)
    then some bad_name
    else none

abbrev pub unless_error : {A : Type 0} → Option PoolReadError → L A → L A
unless_error (some e) m = refuse e
unless_error none m = m

abbrev handle_with : ℕ → ℕ → PoolRef → L Handle
handle_with major kind r =
    unless_error (form_error major kind r.tag)
      (unless_error (name_error kind r.name) (give (record { kind = kind; ref = r })))

-- `Handle`
unfoldable pub handle_of : ℕ → ℕ → L Handle
unfolding at ref_of
handle_of i major = do
  e ← at i tag_method_handle
  if ltb (e.a % 2 ^ 8) 1 || ltb 9 (e.a % 2 ^ 8)
      then refuse bad_kind
      else (do r ← ref_of (e.b % 2 ^ 16); handle_with major (e.a % 2 ^ 8) r)

pub record Dynamic : Type 0 where
  pub tag : ℕ
  pub bootstrap : ℕ
  pub name : List ℕ
  pub descriptor : List ℕ

abbrev dynamic_with : RawEntry → L Dynamic
dynamic_with e = do
  nt ← name_and_type_of (e.b % 2 ^ 16)
  give (record { tag = e.tag; bootstrap = e.a % 2 ^ 16; name = nt.0; descriptor = nt.1 })

-- `Dynamic`
unfoldable pub dynamic_of : ℕ → L Dynamic
unfolding at name_and_type_of
dynamic_of i = do
  e ← at i 0
  if not (e.tag == tag_dynamic) && not (e.tag == tag_invoke_dynamic)
      then refuse not_dynamic
      else dynamic_with e

-- `Bootstrap`
unfoldable pub bootstrap_of : Dynamic → L BootstrapMethod
bootstrap_of d p = elim (get_elem? p.bsms d.bootstrap) [
  | none ↦ refuse no_bootstrap p
  | some m ↦ give m p
]

-- `Const`, with `none` for the fields that a tag leaves at zero.
pub record Const : Type 0 where
  pub tag : ℕ
  pub bits : ℕ
  pub str : List ℕ
  pub handle : Option Handle
  pub dyn : Option Dynamic

abbrev pub bits_const : ℕ → ℕ → Const
bits_const tag bits = record { tag = tag; bits = bits; str = []; handle = none; dyn = none }

abbrev pub text_const : ℕ → List ℕ → Const
text_const tag s = record { tag = tag; bits = 0; str = s; handle = none; dyn = none }

abbrev with_text : ℕ → L (List ℕ) → L Const
with_text tag m = do s ← m; give (text_const tag s)

abbrev with_handle : ℕ → L Handle → L Const
with_handle tag m = do
  h ← m
  give (record { tag = tag; bits = 0; str = []; handle = some h; dyn = none })

abbrev with_dynamic : ℕ → L Dynamic → L Const
with_dynamic tag m = do
  d ← m
  give (record { tag = tag; bits = 0; str = []; handle = none; dyn = some d })

abbrev pub const_with : ℕ → ℕ → RawEntry → L Const
const_with i major e =
    if is_word_tag e.tag
    then give (bits_const e.tag e.a)
    else if is_wide_tag e.tag
    then give (bits_const e.tag (bit_or (e.a <<< 32) e.b))
    else if e.tag == tag_class
    then if not (leb 49 major) then refuse class_not_loadable else with_text e.tag (class_name_of i)
    else if e.tag == tag_string
    then with_text e.tag (utf8_text (e.a % 2 ^ 16))
    else if e.tag == tag_method_handle
    then with_handle e.tag (handle_of i major)
    else if e.tag == tag_method_type
    then with_text e.tag (method_type_of i)
    else if e.tag == tag_dynamic
    then with_dynamic e.tag (dynamic_of i)
    else refuse not_loadable

unfoldable pub const_of : ℕ → ℕ → L Const
unfolding at class_name_of utf8_text handle_of method_type_of dynamic_of
const_of i major = do e ← at i 0; const_with i major e
