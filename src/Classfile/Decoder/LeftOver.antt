-- ===== src/Classfile/Decoder/LeftOver.antt =====
-- classfile/decoder.go: bytes that are left behind an attribute's own structure are an error.
pub mod Attribute
use mocha.Prelude.{
  List, Result, [], ap, arith, err, false, if◌then◌else◌, inl, inr, length, length-append, none, ok,
  refl, sym, true, ℕ, ◌++◌, ◌+◌, ◌-◌, ◌==◌, ◌∙◌, ◌∷◌, ◌≡◌, ◌≢◌,
}
use mocha.Classfile.Attr.{Attr, Kind, loc_code, loc_record}
use mocha.Classfile.ConstPool.{ConstPool}
use mocha.Classfile.Decoder.{
  Context, D, DecodeError, Decoder, give, left_over, or_err, refuse, ◌>>=◌,
}
use mocha.Classfile.Decoder.Attributes.{attributes, decode_body}
use mocha.Classfile.Decoder.BodyRules.{BodyRules, body-cases, is_verbatim, same_body}
use mocha.Classfile.Decoder.Checks.{answer, or_err-cases, or_err-clean, resume-split}
use mocha.Classfile.Decoder.Steady.{IsSteady, extend}
use mocha.Classfile.Decoder.Steady.Attributes.{attributes-IsSteady, steady}

-- A step that succeeds only where it has read all: on more bytes it says how many are left.
pub record IsExact {A : Type 0} (m : D A) : Type 0 where
  pub run :
      (d : Decoder) (a : A) (d' : Decoder) (x : List ℕ)
      → x ≢ []
      → m d ≡ (ok a, d')
      → (d.r.err ≡ none) × ((m (extend x d)).0 ≡ err (left_over (length d.r.b) (length x)))

-- The test of `or_err` where bytes are left.
part :
    {A : Type 0} (a : A) (d : Decoder) (off n m : ℕ) (x : List ℕ)
    → n ≡ m + length x
    → off ≡ m
    → x ≢ []
    → (if off == n then answer (ok a) d else answer (err (left_over off (n - off))) d).0
      ≡ err (left_over m (length x))
part a d off n m [] total whole more = absurd (more refl)
part a d off n m (c ∷ x) total whole more = ground arith

or_err-IsExact : {A : Type 0} (a : A) → IsExact (or_err a)
or_err-IsExact {A} a = record {
  run = λ d z d' x more h.
      let (e, whole, value, same) = or_err-cases a d h in
      (
        e,
        ap (λ (y : Result DecodeError A × Decoder). y.0) (or_err-clean a (extend x d) e)
            ∙ part a (extend x d) d.r.off _ _ x (length-append d.r.b x) whole more,
      );
}

bind-IsExact :
    {A B : Type 0} {m : D A} {f : A → D B}
    → IsSteady m
    → ((a : A) → IsExact (f a))
    → IsExact (m >>= f)
unfolding ◌>>=◌
bind-IsExact {m = m} {f = f} first then_f = record {
  run = λ d z d' x more h.
      let (a, d1, one, two) = resume-split f (m d) h in
      let (clean, out) = (then_f a).run d1 z d' x more two in
      let earlier = first.run d a d1 x one clean in
      let length_eq = ap (λ (b : List ℕ). err (left_over (length b) (length x))) earlier.bytes_eq in
      (earlier.clean, rw earlier.again (out ∙ length_eq));
}

refuse-IsExact : {A : Type 0} (e : DecodeError) → IsExact (refuse {A = A} e)
unfolding refuse
refuse-IsExact e = record { run = λ d z d' x more h. absurd cc }

unfoldable exact : BodyRules
unfolding steady
exact = record {
  steps = steady;
  Ends = IsExact;
  closing = λ a plain. or_err-IsExact a;
  stopping = refuse-IsExact;
  following = bind-IsExact;
}

-- The start of a sub-decoder.
abbrev pub start : List ℕ → ConstPool → Decoder
start body p = record { r = record { b = body; off = 0; err = none }; pool = p }

-- What is kept verbatim is no decoded attribute.
given :
    (m : D Attr) (b : Attr)
    → m ≡ give b
    → is_verbatim b ≡ true
    → (d : Decoder) (a : Attr) (d' : Decoder) → m d ≡ (ok a, d')
    → is_verbatim a ≡ true
unfolding give
given m b e kept d a d' h =
    let same : b ≡ a = cc (ap (λ (f : D Attr). f d) e, h) in ap is_verbatim (sym same) ∙ kept

module _ (cx : Context) (depth : ℕ) where
  -- A body that more bytes follow.
  pub decoded :
      (k : Kind) (name body x : List ℕ) (p : ConstPool) (a : Attr) (d' : Decoder)
      → x ≢ []
      → is_verbatim a ≡ false
      → decode_body cx (attributes cx depth) k name body (start body p) ≡ (ok a, d')
      → (decode_body cx (attributes cx depth) k name (body ++ x) (start (body ++ x) p)).0
        ≡ err (left_over (length body) (length x))
  unfolding exact
  decoded k name body x p a d' more plain h =
      elim (same_body cx (attributes cx depth) k name body (body ++ x)) [
        | inr (inl e) ↦ absurd (cc (given _ _ e refl (start body p) a d' h, plain))
        | inr (inr e) ↦ absurd (cc (given _ _ e refl (start body p) a d' h, plain))
        | inl same ↦
            elim (body-cases exact cx (attributes cx depth) name body k λ e.
              (attributes-IsSteady cx depth loc_record, attributes-IsSteady cx depth loc_code)) [
                | inl ends ↦
                    ap (λ (m : D Attr). (m (start (body ++ x) p)).0) same
                    ∙ (ends.run (start body p) a d' x more h).1
                | inr (inl e) ↦ absurd (cc (given _ _ e refl (start body p) a d' h, plain))
                | inr (inr e) ↦ absurd (cc (given _ _ e refl (start body p) a d' h, plain))
              ]
      ]
