-- ===== src/Classfile/Decoder/Ends.antt =====
-- classfile/decoder.go and classfile/classfile.go: `read` returns, since attributes nest to a depth of two.
pub mod Depth
pub mod Read
use mocha.Prelude.{
  Bool, List, Option-cases, Result, ap, err, false, if◌then◌else◌, inl, inr, ok, refl, some, stuck,
  sym, true, ℕ, ◌∙◌, ◌≢◌,
}
use mocha.Classfile.ConstPool.{ConstPool}
use mocha.Classfile.ConstPool.Answers.{IsAnswering, answers, utf8_text-IsAnswering}
use mocha.Classfile.ConstPool.Resolve.{L, PoolReadError, class_name_of, utf8_text}
use mocha.Classfile.ConstPool.Rules.{
  class_name_of-Has, const_of-Has, handle_of-Has, name_and_type_of-Has,
}
use mocha.Classfile.Decoder.{
  D, DecodeError, Decoder, class, finish, give, in_pool, nested, next_bytes, next_u1, next_u2,
  next_u4, or_err, reading, refuse, resolved, resume, until_done, utf8, ◌>>=◌,
}
use mocha.Classfile.Decoder.BodyRules.{BodyRules}
use mocha.Classfile.Decoder.Checks.{
  answer, finish-clean, finish-failed, or_err-clean, or_err-failed, until_done-clean,
  until_done-failed,
}
use mocha.Classfile.Decoder.Rules.{Rules}
use mocha.Classfile.Wire.{Reader, read_bytes, read_u1, read_u2, read_u4}

pub record IsEnding {A : Type 0} (m : D A) : Type 0 where
  pub run : (d : Decoder) → (m d).0 ≢ stuck

pub give-IsEnding : {A : Type 0} (a : A) → IsEnding (give a)
unfolding give
give-IsEnding a = record { run = λ d h. cc }

pub refuse-IsEnding : {A : Type 0} (e : DecodeError) → IsEnding (refuse {A = A} e)
unfolding refuse
refuse-IsEnding e = record { run = λ d h. cc }

resume-ends :
    {A B : Type 0} (f : A → D B) (y : Result DecodeError A × Decoder)
    → y.0 ≢ stuck
    → ((a : A) → IsEnding (f a))
    → (resume f y).0 ≢ stuck
resume-ends f (ok a, d) h next = (next a).run d
resume-ends f (err e, d) h next = λ g. cc
resume-ends f (stuck, d) h next = absurd (h refl)

pub bind-IsEnding :
    {A B : Type 0} {m : D A} {f : A → D B}
    → IsEnding m
    → ((a : A) → IsEnding (f a))
    → IsEnding (m >>= f)
unfolding ◌>>=◌
bind-IsEnding {m = m} {f = f} first next = record {
  run = λ d. resume-ends f (m d) (first.run d) next;
}

pub until_done-IsEnding : {A : Type 0} (a : A) {m : D A} → IsEnding m → IsEnding (until_done a m)
until_done-IsEnding {A} a {m} ends = record {
  run = λ d h. elim (Option-cases d.r.err) [
    | inl e ↦
        ends.run d
          (ap (λ (y : Result DecodeError A × Decoder). y.0) (sym (until_done-clean a d m e)) ∙ h)
    | inr (e, f) ↦ cc (until_done-failed a d m e f, h)
  ];
}

pub finish-IsEnding : {A : Type 0} (a : A) → IsEnding (finish a)
finish-IsEnding a = record {
  run = λ d h. elim (Option-cases d.r.err) [
    | inl e ↦ cc (finish-clean a d e, h)
    | inr (e, f) ↦ cc (finish-failed a d e f, h)
  ];
}

pub or_err-IsEnding : {A : Type 0} (a : A) → IsEnding (or_err a)
or_err-IsEnding {A} a = record {
  run = λ d h. elim (Option-cases d.r.err) [
    | inl e ↦
        test _ d _ (ap (λ (y : Result DecodeError A × Decoder). y.0) (sym (or_err-clean a d e)) ∙ h)
    | inr (e, f) ↦ cc (or_err-failed a d e f, h)
  ];
}
  where
    test :
        (b : Bool) (d : Decoder) (e : DecodeError)
        → (if b then answer (ok a) d else answer (err e) d).0 ≢ stuck
    test true d e h = cc
    test false d e h = cc

pub in_pool-IsEnding : {A : Type 0} {m : L A} → IsAnswering m → IsEnding (in_pool m)
unfolding in_pool
in_pool-IsEnding {A} {m} ends = record { run = λ d. each d (m d.pool) (ends.run d.pool) }
  where
    each :
        (d : Decoder) (y : Result PoolReadError A × ConstPool)
        → y.0 ≢ stuck
        → (resolved d y).0 ≢ stuck
    each d (ok a, p) h = λ g. cc
    each d (err e, p) h = λ g. cc
    each d (stuck, p) h = λ g. h refl

pub nested-IsEnding : {A : Type 0} (body : List ℕ) {m : D A} → IsEnding m → IsEnding (nested body m)
unfolding nested
nested-IsEnding body ends = record { run = λ d. ends.run _ }

pub reading-IsEnding : {A : Type 0} (f : Reader → A × Reader) → IsEnding (reading f)
unfolding reading
reading-IsEnding f = record { run = λ d h. cc }

unfoldable pub ending : Rules
unfolding utf8 class in_pool utf8_text class_name_of answers next_u1 next_u2 next_u4 next_bytes
ending = record {
  Has = IsEnding;
  giving = give-IsEnding;
  refusing = λ {A} e. refuse-IsEnding e;
  binding = bind-IsEnding;
  waiting = until_done-IsEnding;
  finishing = finish-IsEnding;
  reading_u1 = reading-IsEnding read_u1;
  reading_u2 = reading-IsEnding read_u2;
  reading_u4 = reading-IsEnding read_u4;
  reading_bytes = λ n. reading-IsEnding (read_bytes (some n));
  text_at = λ i. in_pool-IsEnding (utf8_text-IsAnswering i);
  class_name_at = λ i. in_pool-IsEnding (class_name_of-Has answers i);
  handle_at = λ i major. in_pool-IsEnding (handle_of-Has answers i major);
  const_at = λ i major. in_pool-IsEnding (const_of-Has answers i major);
  name_and_type_at = λ i. in_pool-IsEnding (name_and_type_of-Has answers i);
}

unfoldable pub ending_bodies : BodyRules
unfolding ending
ending_bodies = record {
  steps = ending;
  Ends = IsEnding;
  closing = λ a plain. or_err-IsEnding a;
  stopping = refuse-IsEnding;
  following = bind-IsEnding;
}
