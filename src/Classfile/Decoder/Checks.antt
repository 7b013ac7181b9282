-- ===== src/Classfile/Decoder/Checks.antt =====
-- classfile/decoder.go: what the tests of the cursor's error do, where there is one and where there is not.
use mocha.Prelude.{
  ==_iff, Bool, Option, Option-cases, Result, ap, err, false, if◌then◌else◌, inl, inr, length, none,
  ok, refl, some, stuck, sym, true, ◌-◌, ◌==◌, ◌∙◌, ◌≡◌,
}
use mocha.Classfile.Decoder.{
  D, DecodeError, Decoder, finish, left_over, or_err, resume, syntax, until_done,
}
use mocha.Classfile.Wire.{SyntaxError}

on_none :
    {E B : Type 0} (o : Option E) (n : B) (s : E → B)
    → o ≡ none
    → (elim o [ none ↦ n | some e ↦ s e ]) ≡ n
on_none none n s h = refl
on_none (some e) n s h = cc

on_some :
    {E B : Type 0} (o : Option E) (n : B) (s : E → B) (e : E)
    → o ≡ some e
    → (elim o [ none ↦ n | some e ↦ s e ]) ≡ s e
on_some none n s e h = cc
on_some (some e') n s e h = ap s cc

module _ {A : Type 0} (a : A) (d : Decoder) where
  pub until_done-clean : (m : D A) → d.r.err ≡ none → until_done a m d ≡ m d
  unfolding until_done
  until_done-clean m = on_none d.r.err _ _

  pub until_done-failed :
      (m : D A) (e : SyntaxError) → d.r.err ≡ some e → until_done a m d ≡ (ok a, d)
  unfolding until_done
  until_done-failed m = on_some d.r.err _ _

  pub finish-clean : d.r.err ≡ none → finish a d ≡ (ok a, d)
  unfolding finish
  finish-clean = on_none d.r.err _ _

  pub finish-failed : (e : SyntaxError) → d.r.err ≡ some e → finish a d ≡ (err (syntax e), d)
  unfolding finish
  finish-failed = on_some d.r.err _ _

  -- A body that is decoded has been read to its end.
  pub or_err-clean :
      d.r.err ≡ none
      → or_err a d ≡ (
          if d.r.off == length d.r.b
          then (ok a, d)
          else (err (left_over d.r.off (length d.r.b - d.r.off)), d))
  unfolding or_err
  or_err-clean = on_none d.r.err _ _

  pub or_err-failed : (e : SyntaxError) → d.r.err ≡ some e → or_err a d ≡ (err (syntax e), d)
  unfolding or_err
  or_err-failed = on_some d.r.err _ _

-- To split on what a wait does.
pub until_done-cases :
    {A : Type 0} (a : A) (m : D A) (d : Decoder) {z : A} {d' : Decoder}
    → until_done a m d ≡ (ok z, d')
    → d'.r.err ≡ none
    → (d.r.err ≡ none) × (m d ≡ (ok z, d'))
until_done-cases a m d {z} {d'} h clean = elim (Option-cases d.r.err) [
  | inl e ↦ (e, sym (until_done-clean a d m e) ∙ h)
  | inr (e, f) ↦
      let same : d' ≡ d = cc (until_done-failed a d m e f, h) in
      absurd (cc (ap (λ (u : Decoder). u.r.err) same, f, clean))
]

pub finish-cases :
    {A : Type 0} (a : A) (d : Decoder) {z : A} {d' : Decoder}
    → finish a d ≡ (ok z, d')
    → (d.r.err ≡ none) × (z ≡ a) × (d' ≡ d)
finish-cases a d h = elim (Option-cases d.r.err) [
  | inl e ↦ let same = finish-clean a d e in (e, cc, cc)
  | inr (e, f) ↦ absurd (cc (finish-failed a d e f, h))
]

abbrev pub answer : {A : Type 0} → Result DecodeError A → Decoder → Result DecodeError A × Decoder
answer x d = (x, d)

if-split :
    {A : Type 0} (c : Bool) (a z : A) (d d' : Decoder) (e : DecodeError)
    → (if c then answer (ok a) d else answer (err e) d) ≡ (ok z, d')
    → (c ≡ true) × (z ≡ a) × (d' ≡ d)
if-split true a z d d' e h = (refl, cc, cc)
if-split false a z d d' e h = absurd cc

pub or_err-cases :
    {A : Type 0} (a : A) (d : Decoder) {z : A} {d' : Decoder}
    → or_err a d ≡ (ok z, d')
    → (d.r.err ≡ none) × (d.r.off ≡ length d.r.b) × (z ≡ a) × (d' ≡ d)
or_err-cases a d {z} {d'} h = elim (Option-cases d.r.err) [
  | inl e ↦
      let (whole, value, same) = if-split _ a z d d' _ (sym (or_err-clean a d e) ∙ h) in
      (e, (==_iff _ _).0 whole, value, same)
  | inr (e, f) ↦ absurd (cc (or_err-failed a d e f, h))
]

pub resume-split :
    {A B : Type 0} (f : A → D B) (y : Result DecodeError A × Decoder) {z : B} {d : Decoder}
    → resume f y ≡ (ok z, d)
    → (a : A) × (d' : Decoder) × (y ≡ (ok a, d')) × (f a d' ≡ (ok z, d))
resume-split f (ok a, d) h = (a, d, refl, h)
resume-split f (err e, d) h = cc
resume-split f (stuck, d) h = cc
