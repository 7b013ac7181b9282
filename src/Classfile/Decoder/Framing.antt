-- ===== src/Classfile/Decoder/Framing.antt =====
-- classfile/decoder.go: `attributes` moves by the lengths that the file declares, whatever the bodies hold,
-- and under KeepRaw it keeps each of them.
pub mod Table
use mocha.Prelude.{
  Bool, List, Option, Result, [], ap, err, false, if◌then◌else◌, inl, inr, none, ok, refl, some,
  stuck, sym, true, ℕ, ◌∙◌, ◌∷◌, ◌≡◌,
}
use mocha.Classfile.Attr.{
  Attr, Attrs, Kind, Spec, raw_attr, raws, spec_of, stack_map_table_attr, where_specs,
}
use mocha.Classfile.ConstPool.{ConstPool}
use mocha.Classfile.ConstPool.Resolve.{PoolReadError, at, utf8_text}
use mocha.Classfile.Decoder.{
  Context, D, DecodeError, Decoder, give, has_mode, in_pool, keep_raw, nested, or_err, refuse,
  resolved, utf8, ◌>>=◌,
}
use mocha.Classfile.Decoder.Attributes.{
  applies, attribute, decode_as, decode_body, decode_spec, is_dropped, kept,
}
use mocha.Classfile.Decoder.BodyRules.{BodyRules, body-cases, is_verbatim}
use mocha.Classfile.Decoder.Checks.{answer, or_err-cases, resume-split}
use mocha.Classfile.Decoder.LeftOver.{start}
use mocha.Classfile.Decoder.LeftOver.Attribute.{restored-split}
use mocha.Classfile.Decoder.Rules.{Rules}
use mathlib.Core.Path.{subst}

-- A body that is decoded gives no attribute that is kept verbatim.
record IsPlain (m : D Attr) : Type 0 where
  run : (d : Decoder) (a : Attr) (d' : Decoder) → m d ≡ (ok a, d') → is_verbatim a ≡ false

or_err-IsPlain : (a : Attr) → is_verbatim a ≡ false → IsPlain (or_err a)
or_err-IsPlain a plain = record {
  run =
      λ d z d' h. let (e, whole, value, same) = or_err-cases a d h in ap is_verbatim value ∙ plain;
}

refuse-IsPlain : (e : DecodeError) → IsPlain (refuse e)
unfolding refuse
refuse-IsPlain e = record { run = λ d z d' h. absurd cc }

bind-IsPlain :
    {A : Type 0} (m : D A) {f : A → D Attr} → ((a : A) → IsPlain (f a)) → IsPlain (m >>= f)
unfolding ◌>>=◌
bind-IsPlain m {f = f} next = record {
  run = λ d z d' h. let (a, d1, one, two) = resume-split f (m d) h in (next a).run d1 z d' two;
}

-- Nothing is asked of the steps.
unfoldable any_steps : Rules
any_steps = record {
  Has = λ m. Unit;
  giving = λ a. tt;
  refusing = λ e. tt;
  binding = λ m f. tt;
  waiting = λ a m. tt;
  finishing = λ a. tt;
  reading_u1 = tt;
  reading_u2 = tt;
  reading_u4 = tt;
  reading_bytes = λ n. tt;
  text_at = λ i. tt;
  class_name_at = λ i. tt;
  handle_at = λ i major. tt;
  const_at = λ i major. tt;
  name_and_type_at = λ i. tt;
}

unfoldable plain_bodies : BodyRules
unfolding any_steps
plain_bodies = record {
  steps = any_steps;
  Ends = IsPlain;
  closing = or_err-IsPlain;
  stopping = refuse-IsPlain;
  following = λ {A} {m} has next. bind-IsPlain m next;
}

-- What is given as raw has the bytes of the body.
unfoldable pub IsRawOf : List ℕ → Option Attr → Type 0
IsRawOf body (some (raw_attr name bs)) = bs ≡ body
IsRawOf body _ = Unit

plain-IsRawOf : (body : List ℕ) (a : Attr) → is_verbatim a ≡ false → IsRawOf body (some a)
unfolding IsRawOf
plain-IsRawOf body (raw_attr name bs) h = absurd cc
plain-IsRawOf body _ h = tt

unfoldable pub datas : List (List ℕ × List ℕ) → List (List ℕ)
datas [] = []
datas ((name, bs) ∷ rows) = bs ∷ datas rows

pub datas-kept :
    (cx : Context) (o : Option Attr) (name body : List ℕ) (ats : Attrs)
    → has_mode cx.mode keep_raw ≡ true
    → IsRawOf body o
    → datas (raws (kept cx o name body ats)) ≡ body ∷ datas (raws ats)
unfolding datas raws IsRawOf
datas-kept cx none name body ats keep h = rw keep
datas-kept cx (some (raw_attr n bs)) name body ats keep h = rw keep (rw h)
datas-kept cx (some _) name body ats keep h = rw keep

gives :
    (body : List ℕ) (o : Option Attr) (d : Decoder) {o' : Option Attr} {d' : Decoder}
    → IsRawOf body o
    → answer (ok o) d ≡ (ok o', d')
    → (d'.r ≡ d.r) × IsRawOf body o'
gives body o d {o'} {d'} h e =
    let same : o ≡ o' = cc in
    let same_d : d' ≡ d = cc in (ap (λ (u : Decoder). u.r) same_d, subst (IsRawOf body) same h)

abbrev some_of : Result DecodeError Attr × Decoder → Result DecodeError (Option Attr) × Decoder
some_of (ok a, d) = (ok (some a), d)
some_of (err e, d) = (err e, d)
some_of (stuck, d) = (stuck, d)

module _ (cx : Context) (at : ℕ → D Attrs) where
  GivesRawOf : List ℕ → D Attr → Type 0
  GivesRawOf body m =
      (d : Decoder) (a : Attr) (d' : Decoder) → m d ≡ (ok a, d') → IsRawOf body (some a)

  given-GivesRawOf :
      (body : List ℕ) (m : D Attr) (b : Attr)
      → m ≡ give b
      → IsRawOf body (some b)
      → GivesRawOf body m
  unfolding GivesRawOf give
  given-GivesRawOf body m b e raw_of d a d' h =
      (gives body (some b) d {o' = some a} {d' = d'} raw_of
        (ap some_of (sym (ap (λ (f : D Attr). f d) e) ∙ h))).1

  body-GivesRawOf :
      (k : Kind) (name body : List ℕ) → GivesRawOf body (decode_body cx at k name body)
  unfolding any_steps plain_bodies GivesRawOf IsRawOf
  body-GivesRawOf k name body = elim (body-cases plain_bodies cx at name body k (λ h. (tt, tt))) [
    | inl plain ↦ λ d a d' h. plain-IsRawOf body a (plain.run d a d' h)
    | inr (inl e) ↦ given-GivesRawOf body _ (stack_map_table_attr body) e tt
    | inr (inr e) ↦ given-GivesRawOf body _ (raw_attr name body) e refl
  ]

  -- What `attribute` does to the cursor, and what it may give.
  Aside : List ℕ → D (Option Attr) → Type 0
  Aside body m =
      (d : Decoder) (o : Option Attr) (d' : Decoder)
      → m d ≡ (ok o, d')
      → (d'.r ≡ d.r) × IsRawOf body o

  give-Aside : (body : List ℕ) (o : Option Attr) → IsRawOf body o → Aside body (give o)
  unfolding Aside give
  give-Aside body o h d o' d' e = gives body o d h e

  decode_as-Aside : (k : Kind) (name body : List ℕ) → Aside body (decode_as cx at k name body)
  unfolding Aside decode_as ◌>>=◌ nested give IsRawOf GivesRawOf
  decode_as-Aside k name body = of_mode (is_dropped cx k)
    where
      of_mode :
          (b : Bool)
          → Aside body (
              if b
              then give none
              else (do a ← nested body (decode_body cx at k name body); give (some a)))
      of_mode true = give-Aside body none tt
      of_mode false = λ d o d' h.
          let (a, d1, one, two) =
            resume-split _ (nested body (decode_body cx at k name body) d) h in
          let ran = restored-split d.r (decode_body cx at k name body (start body d.pool)) one in
          let r_eq = ap (λ (y : Result DecodeError Attr × Decoder). y.1.r) one in
          let (same, raw_of) = gives body (some a) d1 (body-GivesRawOf k name body _ a _ ran) two in
          (same ∙ sym r_eq, raw_of)

  spec-Aside :
      (loc : ℕ) (name body : List ℕ) (o : Option Spec)
      → Aside body (decode_spec cx at loc name body o)
  unfolding IsRawOf
  spec-Aside loc name body none = give-Aside body (some (raw_attr name body)) refl
  spec-Aside loc name body (some s) = of_place (applies cx loc s)
    where
      of_place :
          (b : Bool)
          → Aside body
              (if b then decode_as cx at s.kind name body else give (some (raw_attr name body)))
      of_place true = decode_as-Aside s.kind name body
      of_place false = give-Aside body (some (raw_attr name body)) refl

  pub attribute-aside :
      (name body : List ℕ) (loc : ℕ) (d : Decoder) (o : Option Attr) (d' : Decoder)
      → attribute cx at name body loc d ≡ (ok o, d')
      → (d'.r ≡ d.r) × IsRawOf body o
  unfolding attribute Aside
  attribute-aside name body loc = spec-Aside loc name body (spec_of name where_specs)

  pub utf8-aside :
      (i : ℕ) (d : Decoder) (s : List ℕ) (d' : Decoder) → utf8 i d ≡ (ok s, d') → d'.r ≡ d.r
  unfolding utf8 in_pool
  utf8-aside i d s d' h = of_text d (utf8_text i d.pool) h
    where
      of_text :
          (d : Decoder) (y : Result PoolReadError (List ℕ) × ConstPool) {s : List ℕ} {d' : Decoder}
          → resolved d y ≡ (ok s, d')
          → d'.r ≡ d.r
      of_text d (ok t, p) h = ap (λ (y : Result DecodeError (List ℕ) × Decoder). y.1.r) (sym h)
      of_text d (err e, p) h = absurd cc
      of_text d (stuck, p) h = absurd cc
