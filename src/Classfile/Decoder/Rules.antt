-- ===== src/Classfile/Decoder/Rules.antt =====
-- classfile/decoder.go: a property that the steps of the decoder have, and that passes from the parts of
-- a step to the whole, is one of its methods too.
use mocha.Prelude.{Bool, List, [], false, if◌then◌else◌, suc, true, zero, ℕ, ◌==◌, ◌∷◌}
use mocha.Classfile.Attr.{Attrs, loc_record, no_attrs, no_components}
use mocha.Classfile.ConstPool.Resolve.{at, const_of, handle_of, name_and_type_of}
use mocha.Classfile.Decoder.{
  Context, D, DecodeError, class, finish, give, in_pool, next_bytes, next_u1, next_u2, next_u4,
  opt_class, opt_utf8, refuse, rows, until_done, utf8, ◌>>=◌,
}
use mocha.Classfile.Decoder.Attributes.{attribute, attributes, table}
use mocha.Classfile.Decoder.Bodies.{
  bootstrap_method, class_list, components, handler, inner_class, line_number, local_var,
  local_vars, method_parameter,
}

-- A property of steps, and what has it.
pub record Rules : Type 1 where
  pub Has : {A : Type 0} → D A → Type 0
  pub giving : {A : Type 0} (a : A) → Has (give a)
  pub refusing : {A : Type 0} (e : DecodeError) → Has (refuse {A = A} e)
  pub binding :
      {A B : Type 0} {m : D A} {f : A → D B} → Has m → ((a : A) → Has (f a)) → Has (m >>= f)
  pub waiting : {A : Type 0} (a : A) {m : D A} → Has m → Has (until_done a m)
  pub finishing : {A : Type 0} (a : A) → Has (finish a)
  pub reading_u1 : Has next_u1
  pub reading_u2 : Has next_u2
  pub reading_u4 : Has next_u4
  pub reading_bytes : (n : ℕ) → Has (next_bytes n)
  pub text_at : (i : ℕ) → Has (utf8 i)
  pub class_name_at : (i : ℕ) → Has (class i)
  pub handle_at : (i major : ℕ) → Has (in_pool (handle_of i major))
  pub const_at : (i major : ℕ) → Has (in_pool (const_of i major))
  pub name_and_type_at : (i : ℕ) → Has (in_pool (name_and_type_of i))

module _ (r : Rules) where
  give-Has : {A : Type 0} (a : A) → r.Has (give a)
  give-Has = r.giving

  refuse-Has : {A : Type 0} (e : DecodeError) → r.Has (refuse {A = A} e)
  refuse-Has = r.refusing

  bind-Has :
      {A B : Type 0} {m : D A} {f : A → D B} → r.Has m → ((a : A) → r.Has (f a)) → r.Has (m >>= f)
  bind-Has = r.binding

  until_done-Has : {A : Type 0} (a : A) {m : D A} → r.Has m → r.Has (until_done a m)
  until_done-Has = r.waiting

  finish-Has : {A : Type 0} (a : A) → r.Has (finish a)
  finish-Has = r.finishing

  next_u1-Has : r.Has next_u1
  next_u1-Has = r.reading_u1

  next_u2-Has : r.Has next_u2
  next_u2-Has = r.reading_u2

  next_u4-Has : r.Has next_u4
  next_u4-Has = r.reading_u4

  next_bytes-Has : (n : ℕ) → r.Has (next_bytes n)
  next_bytes-Has = r.reading_bytes

  utf8-Has : (i : ℕ) → r.Has (utf8 i)
  utf8-Has = r.text_at

  class-Has : (i : ℕ) → r.Has (class i)
  class-Has = r.class_name_at

  handle-Has : (i major : ℕ) → r.Has (in_pool (handle_of i major))
  handle-Has = r.handle_at

  const-Has : (i major : ℕ) → r.Has (in_pool (const_of i major))
  const-Has = r.const_at

  name_and_type-Has : (i : ℕ) → r.Has (in_pool (name_and_type_of i))
  name_and_type-Has = r.name_and_type_at

  if-Has : {A : Type 0} (b : Bool) {m n : D A} → r.Has m → r.Has n → r.Has (if b then m else n)
  if-Has true p q = p
  if-Has false p q = q

  opt_class-Has : (i : ℕ) → r.Has (opt_class i)
  unfolding opt_class
  opt_class-Has i = if-Has (i == 0) (give-Has []) (class-Has i)

  opt_utf8-Has : (i : ℕ) → r.Has (opt_utf8 i)
  unfolding opt_utf8
  opt_utf8-Has i = if-Has (i == 0) (give-Has []) (utf8-Has i)

ruleset steps = (
  give-Has, refuse-Has, bind-Has, until_done-Has, finish-Has, next_u1-Has, next_u2-Has, next_u4-Has,
  next_bytes-Has, utf8-Has, class-Has, handle-Has, const-Has, name_and_type-Has, if-Has,
  opt_class-Has, opt_utf8-Has,
)

module _ (r : Rules) where
  pub rows-Has : {A : Type 0} (n : ℕ) {m : D A} → r.Has m → r.Has (rows n m)
  unfolding rows
  rows-Has zero has = give-Has r []
  rows-Has (suc n) has =
      until_done-Has r []
        (bind-Has r has λ x. bind-Has r (rows-Has n has) λ xs. give-Has r (x ∷ xs))

  pub class_list-Has : r.Has class_list
  unfolding class_list
  class_list-Has =
      bind-Has r (next_u2-Has r) λ n. rows-Has n (bind-Has r (next_u2-Has r) (class-Has r))

  pub local_var-Has : r.Has local_var
  unfolding local_var
  local_var-Has = search steps depth 40

  pub inner_class-Has : r.Has inner_class
  unfolding inner_class
  inner_class-Has = search steps depth 40

  pub line_number-Has : r.Has line_number
  unfolding line_number
  line_number-Has = search steps depth 40

  pub method_parameter-Has : r.Has method_parameter
  unfolding method_parameter
  method_parameter-Has = search steps depth 40

  pub handler-Has : r.Has handler
  unfolding handler
  handler-Has = search steps depth 40

  pub local_vars-Has : r.Has local_vars
  unfolding local_vars
  local_vars-Has = bind-Has r (next_u2-Has r) λ n. rows-Has n local_var-Has

  pub bootstrap_method-Has : (major : ℕ) → r.Has (bootstrap_method major)
  unfolding bootstrap_method
  bootstrap_method-Has major = search (steps, rows-Has) depth 40

  pub components-Has :
      (at : ℕ → D Attrs) → r.Has (at loc_record) → (n : ℕ) → r.Has (components at n)
  unfolding components
  components-Has at has zero = give-Has r no_components
  components-Has at has (suc n) = let others = components-Has at has n in search steps depth 40

  pub table-Has :
      (cx : Context) (at : ℕ → D Attrs) (loc n : ℕ)
      → ((name body : List ℕ) → r.Has (attribute cx at name body loc))
      → r.Has (table cx at loc n)
  unfolding table
  table-Has cx at loc zero has = give-Has r no_attrs
  table-Has cx at loc (suc n) has =
      let others = table-Has cx at loc n has in search (steps, has) depth 40

  pub attributes-Has :
      (cx : Context) (depth loc : ℕ)
      → ((name body : List ℕ) → r.Has (attribute cx (attributes cx depth) name body loc))
      → r.Has (attributes cx (suc depth) loc)
  unfolding attributes
  attributes-Has cx depth loc has =
      bind-Has r (next_u2-Has r)
        λ n. bind-Has r (table-Has cx (attributes cx depth) loc n has) (finish-Has r)
