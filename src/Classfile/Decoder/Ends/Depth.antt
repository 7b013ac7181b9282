-- ===== src/Classfile/Decoder/Ends/Depth.antt =====
-- classfile/decoder.go: `attributes` returns, since no attribute inside an attribute holds attributes.
use mocha.Prelude.{
  Bool, Bool-cases, List, Option, [], ap, arith, bit_and, false, if◌then◌else◌, inl, inr, none, not,
  refl, some, suc, sym, true, ℕ, ◌&&◌, ◌==◌, ◌∷◌, ◌≡◌,
}
use mocha.Classfile.Attr.{Attr, Attrs, Kind, Spec, loc_code, loc_record, spec_of, where_specs}
use mocha.Classfile.ConstPool.Resolve.{is_text}
use mocha.Classfile.Decoder.{Context, D}
use mocha.Classfile.Decoder.Attributes.{
  applies, attribute, attributes, decode_as, decode_body, decode_spec, is_dropped,
}
use mocha.Classfile.Decoder.BodyRules.{body-cases, nests}
use mocha.Classfile.Decoder.Ends.{
  IsEnding, bind-IsEnding, ending, ending_bodies, give-IsEnding, nested-IsEnding,
}
use mocha.Classfile.Decoder.Members.{max_depth}
use mocha.Classfile.Decoder.Rules.{attributes-Has}
use mathlib.Core.Path.{subst}

pub if-IsEnding :
    {A : Type 0} (b : Bool) {m n : D A} → IsEnding m → IsEnding n → IsEnding (if b then m else n)
if-IsEnding true p q = p
if-IsEnding false p q = q

module _ (cx : Context) (at : ℕ → D Attrs) where
  body-IsEnding :
      (k : Kind) (name body : List ℕ)
      → (nests k ≡ true → IsEnding (at loc_record) × IsEnding (at loc_code))
      → IsEnding (decode_body cx at k name body)
  unfolding ending ending_bodies
  body-IsEnding k name body h = elim (body-cases ending_bodies cx at name body k h) [
    | inl ends ↦ ends
    | inr (inl e) ↦ subst IsEnding (sym e) (give-IsEnding _)
    | inr (inr e) ↦ subst IsEnding (sym e) (give-IsEnding _)
  ]

  if-true-IsEnding :
      (b : Bool) {m n : D (Option Attr)}
      → (b ≡ true → IsEnding m)
      → IsEnding n
      → IsEnding (if b then m else n)
  if-true-IsEnding true p q = p refl
  if-true-IsEnding false p q = q

  attribute-IsEnding :
      (name body : List ℕ) (loc : ℕ)
      → ((s : Spec)
          → spec_of name where_specs ≡ some s
          → applies cx loc s ≡ true
          → nests s.kind ≡ true
          → IsEnding (at loc_record) × IsEnding (at loc_code))
      → IsEnding (attribute cx at name body loc)
  unfolding attribute decode_as
  attribute-IsEnding name body loc ready = of_spec (spec_of name where_specs) refl
    where
      of_spec :
          (o : Option Spec)
          → spec_of name where_specs ≡ o
          → IsEnding (decode_spec cx at loc name body o)
      of_spec none h = give-IsEnding _
      of_spec (some s) h =
          if-true-IsEnding (applies cx loc s)
            (λ here. if-IsEnding (is_dropped cx s.kind) (give-IsEnding none) (
              bind-IsEnding (nested-IsEnding body (body-IsEnding s.kind name body (ready s h here)))
                λ a. give-IsEnding (some a)))
            (give-IsEnding _)

-- No attribute of a method's code or of a record's component holds attributes.
is_flat : ℕ → Spec → Bool
is_flat loc s = not (not (bit_and s.at loc == 0) && nests s.kind)

all_specs : (Spec → Bool) → List Spec → Bool
all_specs p [] = true
all_specs p (s ∷ ss) = p s && all_specs p ss

spec_of-holds :
    (p : Spec → Bool) (name : List ℕ) (ss : List Spec) (s : Spec)
    → all_specs p ss ≡ true
    → spec_of name ss ≡ some s
    → p s ≡ true
unfolding all_specs spec_of
spec_of-holds p name [] s all h = absurd cc
spec_of-holds p name (t ∷ ss) s all h = elim (Bool-cases (is_text name t.name)) [
  | inl e ↦
      let same : t ≡ s = cc (ap (λ b. if b then some t else spec_of name ss) e, h) in
      ground (arith, ap p same)
  | inr e ↦
      spec_of-holds p name ss s (ground arith)
        (cc (ap (λ b. if b then some t else spec_of name ss) e, h))
]

flat_code : all_specs (is_flat loc_code) where_specs ≡ true
unfolding all_specs is_flat
flat_code = refl

flat_record : all_specs (is_flat loc_record) where_specs ≡ true
unfolding all_specs is_flat
flat_record = refl

flat_attributes :
    (cx : Context) (depth loc : ℕ)
    → all_specs (is_flat loc) where_specs ≡ true
    → IsEnding (attributes cx (suc depth) loc)
unfolding ending is_flat
flat_attributes cx depth loc flat = attributes-Has ending cx depth loc λ name body.
    attribute-IsEnding cx (attributes cx depth) name body loc λ s h here nested_in.
      absurd (ground (arith, spec_of-holds (is_flat loc) name where_specs s flat h))

pub attributes-IsEnding : (cx : Context) (loc : ℕ) → IsEnding (attributes cx max_depth loc)
unfolding ending
attributes-IsEnding cx loc = attributes-Has ending cx 1 loc λ name body.
    attribute-IsEnding cx (attributes cx 1) name body loc λ s h here nested_in.
      (flat_attributes cx 0 loc_record flat_record, flat_attributes cx 0 loc_code flat_code)
