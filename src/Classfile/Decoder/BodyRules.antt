-- ===== src/Classfile/Decoder/BodyRules.antt =====
-- classfile/decoder.go: what holds of the way in which the bodies of attributes are decoded.
use mocha.Prelude.{
  Bool, List, [], false, if◌then◌else◌, inl, inr, leb, none, refl, true, ℕ, ◌==◌, ◌≡◌, ◌⊎◌,
}
use mocha.Classfile.Attr.{
  Attr, Attrs, Kind, LocalVariable, a_bootstrap_methods, a_code, a_constant_value, a_deprecated,
  a_enclosing_method, a_exceptions, a_inner_classes, a_line_number_table, a_local_variable_table,
  a_local_variable_type_table, a_method_parameters, a_nest_host, a_nest_members,
  a_permitted_subclasses, a_record, a_signature, a_source_file, a_stack_map_table, a_synthetic,
  code_attr, code_with, constant_value_attr, enclosing_method_attr, loc_code, loc_record, raw_attr,
  record_attr, retained, stack_map_table_attr,
}
use mocha.Classfile.ConstPool.Resolve.{at}
use mocha.Classfile.Decoder.{
  Context, D, DecodeError, bad_constant_value, code_too_long, empty_code, give, next_u1, next_u2,
  or_err, refuse, ◌>>=◌,
}
use mocha.Classfile.Decoder.Attributes.{
  class_body, decode_body, list_body, record_body, table_body, text_body, vars_body,
}
use mocha.Classfile.Decoder.Bodies.{
  code_body, constant_value, enclosing, hoist_lines, hoist_stack_map, inner_class,
  is_field_constant,
}
use mocha.Classfile.Decoder.Rules.{
  Rules, bootstrap_method-Has, class_list-Has, components-Has, handler-Has, inner_class-Has,
  line_number-Has, local_vars-Has, method_parameter-Has, rows-Has,
}
use mocha.Classfile.Pool.{count}

-- What is kept verbatim has no structure of its own.
abbrev pub is_verbatim : Attr → Bool
is_verbatim (raw_attr name bs) = true
is_verbatim (stack_map_table_attr bs) = true
is_verbatim _ = false

-- A property of bodies, whose steps have another, and which `orErr` has at the end.
pub record BodyRules : Type 1 where
  pub steps : Rules
  pub Ends : D Attr → Type 0
  pub closing : (a : Attr) → is_verbatim a ≡ false → Ends (or_err a)
  pub stopping : (e : DecodeError) → Ends (refuse e)
  pub following :
      {A : Type 0} {m : D A} {f : A → D Attr}
      → steps.Has m
      → ((a : A) → Ends (f a))
      → Ends (m >>= f)

module _ (r : BodyRules) where
  open r.steps use {
    reading_u2, reading_u4, reading_bytes, text_at, class_name_at, const_at, name_and_type_at,
  }

  if-Ends : (b : Bool) {m n : D Attr} → r.Ends m → r.Ends n → r.Ends (if b then m else n)
  if-Ends true p q = p
  if-Ends false p q = q

  next_u2-then : {f : ℕ → D Attr} → ((i : ℕ) → r.Ends (f i)) → r.Ends (next_u2 >>= f)
  next_u2-then = r.following reading_u2

  pub text_body-Ends :
      (f : List ℕ → Attr) → ((v : List ℕ) → is_verbatim (f v) ≡ false) → r.Ends (text_body f)
  unfolding text_body
  text_body-Ends f plain = next_u2-then λ i. r.following (text_at i) λ v. r.closing (f v) (plain v)

  pub class_body-Ends :
      (f : List ℕ → Attr) → ((v : List ℕ) → is_verbatim (f v) ≡ false) → r.Ends (class_body f)
  unfolding class_body
  class_body-Ends f plain =
      next_u2-then λ i. r.following (class_name_at i) λ v. r.closing (f v) (plain v)

  pub list_body-Ends :
      (f : List (List ℕ) → Attr)
      → ((cs : List (List ℕ)) → is_verbatim (f cs) ≡ false)
      → r.Ends (list_body f)
  unfolding list_body
  list_body-Ends f plain = r.following (class_list-Has r.steps) λ cs. r.closing (f cs) (plain cs)

  pub table_body-Ends :
      {A : Type 0} (count : D ℕ) (m : D A) (f : List A → Attr)
      → r.steps.Has count
      → r.steps.Has m
      → ((xs : List A) → is_verbatim (f xs) ≡ false)
      → r.Ends (table_body count m f)
  unfolding table_body
  table_body-Ends count m f counts reads plain =
      r.following counts
        λ n. r.following (rows-Has r.steps n reads) λ xs. r.closing (f xs) (plain xs)

  pub vars_body-Ends :
      (f : List LocalVariable → Attr)
      → ((vs : List LocalVariable) → is_verbatim (f vs) ≡ false)
      → r.Ends (vars_body f)
  unfolding vars_body
  vars_body-Ends f plain = r.following (local_vars-Has r.steps) λ vs. r.closing (f vs) (plain vs)

  pub enclosing-Ends : r.Ends enclosing
  unfolding enclosing
  enclosing-Ends = next_u2-then λ i. r.following (class_name_at i) λ c. next_u2-then λ mi.
      if-Ends (mi == 0) (r.closing (enclosing_method_attr c [] []) refl)
        (r.following (name_and_type_at mi) λ nt. r.closing (enclosing_method_attr c nt.0 nt.1) refl)

  pub constant_value-Ends : (major : ℕ) → r.Ends (constant_value major)
  unfolding constant_value
  constant_value-Ends major = next_u2-then λ i. r.following (const_at i major) λ v.
      if-Ends (is_field_constant v.tag) (r.closing (constant_value_attr v) refl)
        (r.stopping bad_constant_value)

  pub record_body-Ends :
      (cx : Context) (at : ℕ → D Attrs) → r.steps.Has (at loc_record) → r.Ends (record_body cx at)
  unfolding record_body
  record_body-Ends cx at has =
      next_u2-then
        λ n. r.following (components-Has r.steps at has n) λ cs. r.closing (record_attr cs) refl

  pub code_body-Ends : (at : ℕ → D Attrs) → r.steps.Has (at loc_code) → r.Ends (code_body at)
  unfolding code_body
  code_body-Ends at has = next_u2-then λ max_stack. next_u2-then λ max_locals.
      r.following reading_u4 λ code_length. if-Ends (code_length == 0) (r.stopping empty_code) (
        if-Ends (leb 65536 code_length) (r.stopping code_too_long) (
          r.following (reading_bytes code_length) λ bs. next_u2-then λ n.
            r.following (rows-Has r.steps n (handler-Has r.steps)) λ handlers.
              r.following has λ ats.
                r.closing
                  (code_attr (
                    code_with max_stack max_locals bs handlers ats (hoist_lines none ats)
                      (hoist_stack_map none ats)))
                  refl))

-- The attributes whose bodies hold attributes, and those whose bodies are kept verbatim.
abbrev pub nests : Kind → Bool
nests a_record = true
nests a_code = true
nests _ = false

abbrev keeps_body : Kind → Bool
keeps_body a_stack_map_table = true
keeps_body retained = true
keeps_body _ = false

module _ (r : BodyRules) (cx : Context) (at : ℕ → D Attrs) (name body : List ℕ) where
  open r.steps use {reading_u1, reading_u2}

  decode_body-Ends :
      (k : Kind)
      → (nests k ≡ true → r.steps.Has (at loc_record) × r.steps.Has (at loc_code))
      → keeps_body k ≡ false
      → r.Ends (decode_body cx at k name body)
  unfolding decode_body
  decode_body-Ends a_source_file h e = text_body-Ends r _ (λ v. refl)
  decode_body-Ends a_signature h e = text_body-Ends r _ (λ v. refl)
  decode_body-Ends a_constant_value h e = constant_value-Ends r cx.major
  decode_body-Ends a_synthetic h e = r.closing _ refl
  decode_body-Ends a_deprecated h e = r.closing _ refl
  decode_body-Ends a_nest_host h e = class_body-Ends r _ (λ v. refl)
  decode_body-Ends a_exceptions h e = list_body-Ends r _ (λ v. refl)
  decode_body-Ends a_nest_members h e = list_body-Ends r _ (λ v. refl)
  decode_body-Ends a_permitted_subclasses h e = list_body-Ends r _ (λ v. refl)
  decode_body-Ends a_enclosing_method h e = enclosing-Ends r
  decode_body-Ends a_inner_classes h e =
      table_body-Ends r next_u2 inner_class _ reading_u2 (inner_class-Has r.steps) (λ xs. refl)
  decode_body-Ends a_bootstrap_methods h e =
      table_body-Ends r next_u2 _ _ reading_u2 (bootstrap_method-Has r.steps cx.major) (λ xs. refl)
  decode_body-Ends a_method_parameters h e =
      table_body-Ends r next_u1 _ _ reading_u1 (method_parameter-Has r.steps) (λ xs. refl)
  decode_body-Ends a_record h e = record_body-Ends r cx at (h refl).0
  decode_body-Ends a_stack_map_table h e = absurd cc
  decode_body-Ends a_line_number_table h e =
      table_body-Ends r next_u2 _ _ reading_u2 (line_number-Has r.steps) (λ xs. refl)
  decode_body-Ends a_local_variable_table h e = vars_body-Ends r _ (λ v. refl)
  decode_body-Ends a_local_variable_type_table h e = vars_body-Ends r _ (λ v. refl)
  decode_body-Ends a_code h e = code_body-Ends r at (h refl).1
  decode_body-Ends retained h e = absurd cc

  keeps_body-cases :
      (k : Kind)
      → (keeps_body k ≡ false)
        ⊎ ((decode_body cx at k name body ≡ give (stack_map_table_attr body))
            ⊎ (decode_body cx at k name body ≡ give (raw_attr name body)))
  unfolding decode_body
  keeps_body-cases a_stack_map_table = inr (inl refl)
  keeps_body-cases retained = inr (inr refl)
  keeps_body-cases _ = inl refl

  -- How a body is decoded: with the property, or kept.
  pub body-cases :
      (k : Kind)
      → (nests k ≡ true → r.steps.Has (at loc_record) × r.steps.Has (at loc_code))
      → r.Ends (decode_body cx at k name body)
        ⊎ ((decode_body cx at k name body ≡ give (stack_map_table_attr body))
            ⊎ (decode_body cx at k name body ≡ give (raw_attr name body)))
  body-cases k h = elim (keeps_body-cases k) [
    | inl e ↦ inl (decode_body-Ends k h e)
    | inr kept ↦ inr kept
  ]

-- Where a body is not kept, it is decoded alike whatever its name and its bytes are.
pub same_body :
    (cx : Context) (at : ℕ → D Attrs) (k : Kind) (name body bs : List ℕ)
    → (decode_body cx at k name bs ≡ decode_body cx at k name body)
      ⊎ ((decode_body cx at k name body ≡ give (stack_map_table_attr body))
          ⊎ (decode_body cx at k name body ≡ give (raw_attr name body)))
unfolding decode_body
same_body cx at a_stack_map_table name body bs = inr (inl refl)
same_body cx at retained name body bs = inr (inr refl)
same_body cx at _ name body bs = inl refl
