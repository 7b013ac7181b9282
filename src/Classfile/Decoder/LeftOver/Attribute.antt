-- ===== src/Classfile/Decoder/LeftOver/Attribute.antt =====
-- classfile/decoder.go: `attribute` reads its body to the end.
use mocha.Prelude.{
  Bool, List, Option, Result, [], ap, err, false, if◌then◌else◌, length, none, ok, some, stuck,
  true, ℕ, ◌++◌, ◌∙◌, ◌≡◌, ◌≢◌,
}
use mocha.Classfile.Attr.{Attr, Kind, Spec, raw_attr, spec_of, where_specs}
use mocha.Classfile.Decoder.{
  Context, D, DecodeError, Decoder, give, left_over, nested, restored, resume, ◌>>=◌,
}
use mocha.Classfile.Decoder.Attributes.{
  applies, attribute, attributes, decode_as, decode_body, decode_spec, is_dropped,
}
use mocha.Classfile.Decoder.BodyRules.{is_verbatim}
use mocha.Classfile.Decoder.Checks.{answer, resume-split}
use mocha.Classfile.Decoder.LeftOver.{decoded, start}
use mocha.Classfile.Wire.{Reader}

pub restored-split :
    {A : Type 0} (r : Reader) (y : Result DecodeError A × Decoder) {a : A} {d' : Decoder}
    → restored r y ≡ (ok a, d')
    → y ≡ (ok a, y.1)
restored-split r (x, d) h = cc

restored-err :
    {A B : Type 0} (f : A → D B) (r : Reader) (y : Result DecodeError A × Decoder) {e : DecodeError}
    → y.0 ≡ err e
    → (resume f (restored r y)).0 ≡ err e
restored-err f r (ok a, d) h = cc
restored-err f r (err e', d) h = cc
restored-err f r (stuck, d) h = cc

give-split :
    (b : Attr) (d : Decoder) {a : Attr} {d' : Decoder}
    → answer (ok (some b)) d ≡ (ok (some a), d')
    → b ≡ a
give-split b d h = cc

module _ (cx : Context) (depth : ℕ) (name body x : List ℕ) (d : Decoder) (a : Attr) (d' : Decoder)
    (more : x ≢ []) (plain : is_verbatim a ≡ false) where
  Refuses : (List ℕ → D (Option Attr)) → Type 0
  Refuses m =
      m body d ≡ (ok (some a), d') → (m (body ++ x) d).0 ≡ err (left_over (length body) (length x))

  abbrev inside : Kind → List ℕ → D Attr
  inside k bs = decode_body cx (attributes cx depth) k name bs

  kind-Refuses : (k : Kind) → Refuses (decode_as cx (attributes cx depth) k name)
  unfolding Refuses decode_as ◌>>=◌ nested give
  kind-Refuses k = of_mode (is_dropped cx k)
    where
      of_mode :
          (b : Bool)
          → Refuses (λ bs. if b then give none else (do v ← nested bs (inside k bs); give (some v)))
      of_mode true h = absurd cc
      of_mode false h =
          let (v, d1, one, two) = resume-split _ (nested body (inside k body) d) h in
          let ran = restored-split d.r (inside k body (start body d.pool)) one in
          let same = give-split v d1 two in
          restored-err _ d.r (inside k (body ++ x) (start (body ++ x) d.pool))
            (decoded cx depth k name body x d.pool v _ more (ap is_verbatim same ∙ plain) ran)

  spec-Refuses :
      (loc : ℕ) (o : Option Spec)
      → Refuses (λ bs. decode_spec cx (attributes cx depth) loc name bs o)
  unfolding Refuses decode_as give
  spec-Refuses loc none =
      λ h. absurd (cc (ap is_verbatim (give-split (raw_attr name body) d h), plain))
  spec-Refuses loc (some s) = of_place (applies cx loc s)
    where
      of_place :
          (b : Bool)
          → Refuses (λ bs.
            if b
            then decode_as cx (attributes cx depth) s.kind name bs
            else give (some (raw_attr name bs)))
      of_place true h = kind-Refuses s.kind h
      of_place false h = absurd (cc (ap is_verbatim (give-split (raw_attr name body) d h), plain))

-- An attribute that is decoded, and not kept verbatim, has been read to the last byte of its body: the same
-- body with anything behind it is refused, at the offset where its structure ends and with the number
-- of bytes that are left over. This holds at every location, to every depth of nested attributes.
pub attribute-left_over :
    (cx : Context) (depth loc : ℕ) (name body x : List ℕ) (d : Decoder) (a : Attr) (d' : Decoder)
    → attribute cx (attributes cx depth) name body loc d ≡ (ok (some a), d')
    → is_verbatim a ≡ false
    → x ≢ []
    → (attribute cx (attributes cx depth) name (body ++ x) loc d).0
      ≡ err (left_over (length body) (length x))
unfolding attribute Refuses
attribute-left_over cx depth loc name body x d a d' h plain more =
    spec-Refuses cx depth name body x d a d' more plain loc (spec_of name where_specs) h
