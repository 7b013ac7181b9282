-- ===== src/Classfile/Decoder/Steady/Attributes.antt =====
-- classfile/decoder.go: `attributes` is steady, to any depth.
use mocha.Prelude.{
  Bool, List, Option, Result, false, if◌then◌else◌, none, refl, some, suc, true, zero, ℕ,
}
use mocha.Classfile.Attr.{Attrs, Kind, Spec, spec_of, where_specs}
use mocha.Classfile.ConstPool.{ConstPool}
use mocha.Classfile.ConstPool.Resolve.{
  at, class_name_of, const_of, handle_of, name_and_type_of, utf8_text,
}
use mocha.Classfile.Decoder.{Context, D, DecodeError, Decoder, class, in_pool, nested, utf8}
use mocha.Classfile.Decoder.Attributes.{
  applies, attribute, attributes, decode_as, decode_body, decode_spec, is_dropped,
}
use mocha.Classfile.Decoder.Rules.{Rules, attributes-Has}
use mocha.Classfile.Decoder.Steady.{
  IsSteady, aside-IsSteady, bind-IsSteady, finish-IsSteady, give-IsSteady, in_pool-IsSteady,
  next_bytes-IsSteady, next_u1-IsSteady, next_u2-IsSteady, next_u4-IsSteady, refuse-IsSteady,
  until_done-IsSteady,
}

nested-IsSteady : {A : Type 0} (body : List ℕ) (m : D A) → IsSteady (nested body m)
unfolding nested
nested-IsSteady {A} body m =
    aside-IsSteady (nested body m) (λ p. ((inside p).0, (inside p).1.pool)) λ d. refl
  where
    inside : ConstPool → Result DecodeError A × Decoder
    inside p = m (record { r = record { b = body; off = 0; err = none }; pool = p })

unfoldable pub steady : Rules
unfolding utf8 class in_pool utf8_text class_name_of
steady = record {
  Has = IsSteady;
  giving = give-IsSteady;
  refusing = λ {A} e. refuse-IsSteady e;
  binding = bind-IsSteady;
  waiting = until_done-IsSteady;
  finishing = finish-IsSteady;
  reading_u1 = next_u1-IsSteady;
  reading_u2 = next_u2-IsSteady;
  reading_u4 = next_u4-IsSteady;
  reading_bytes = next_bytes-IsSteady;
  text_at = λ i. in_pool-IsSteady (utf8_text i);
  class_name_at = λ i. in_pool-IsSteady (class_name_of i);
  handle_at = λ i major. in_pool-IsSteady (handle_of i major);
  const_at = λ i major. in_pool-IsSteady (const_of i major);
  name_and_type_at = λ i. in_pool-IsSteady (name_and_type_of i);
}

if-IsSteady :
    {A : Type 0} (b : Bool) {m n : D A} → IsSteady m → IsSteady n → IsSteady (if b then m else n)
if-IsSteady true p q = p
if-IsSteady false p q = q

attribute-IsSteady :
    (cx : Context) (at : ℕ → D Attrs) (name body : List ℕ) (loc : ℕ)
    → IsSteady (attribute cx at name body loc)
unfolding attribute decode_as
attribute-IsSteady cx at name body loc = of_spec (spec_of name where_specs)
  where
    of_kind : (k : Kind) → IsSteady (decode_as cx at k name body)
    of_kind k = if-IsSteady (is_dropped cx k) (give-IsSteady none) (
        bind-IsSteady (nested-IsSteady body (decode_body cx at k name body))
          λ a. give-IsSteady (some a))

    of_spec : (o : Option Spec) → IsSteady (decode_spec cx at loc name body o)
    of_spec none = give-IsSteady _
    of_spec (some s) = if-IsSteady (applies cx loc s) (of_kind s.kind) (give-IsSteady _)

pub attributes-IsSteady : (cx : Context) (depth loc : ℕ) → IsSteady (attributes cx depth loc)
unfolding attributes steady
attributes-IsSteady cx zero loc = record { run = λ d z d' x h clean. absurd cc }
attributes-IsSteady cx (suc depth) loc =
    attributes-Has steady cx depth loc
      λ name body. attribute-IsSteady cx (attributes cx depth) name body loc
