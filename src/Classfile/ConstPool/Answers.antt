-- ===== src/Classfile/ConstPool/Answers.antt =====
-- classfile/constpool.go: a method that resolves an index always returns.
use mocha.Prelude.{
  Bool, List, Option, Option-cases, Result, drop, err, false, get_elem?, if◌then◌else◌, inl, inr,
  none, not, ok, refl, some, stuck, take, true, ℕ, ◌&&◌, ◌==◌, ◌≢◌,
}
use mocha.Classfile.ConstPool.{ConstPool, RawEntry}
use mocha.Classfile.ConstPool.Resolve.{
  L, PoolReadError, at, checked, give, index_zero, keep_text, kept_text, out_of_range, refuse,
  resume, text_of, unusable_slot, utf8_text, wrong_tag, ◌>>=◌,
}
use mocha.Classfile.ConstPool.Rules.{Rules}
use mocha.Classfile.Pool.{tag_utf8}
use mocha.Jvm.Mutf8.{SyntaxError}
use mocha.Jvm.Mutf8.Decode.{Outcome, decode-Outcome}

pub record IsAnswering {A : Type 0} (m : L A) : Type 0 where
  pub run : (p : ConstPool) → (m p).0 ≢ stuck

pub give-IsAnswering : {A : Type 0} (a : A) → IsAnswering (give a)
give-IsAnswering a = record { run = λ p h. cc }

pub refuse-IsAnswering : {A : Type 0} (e : PoolReadError) → IsAnswering (refuse {A = A} e)
refuse-IsAnswering e = record { run = λ p h. cc }

resume-answers :
    {A B : Type 0} (f : A → L B) (y : Result PoolReadError A × ConstPool)
    → y.0 ≢ stuck
    → ((a : A) → IsAnswering (f a))
    → (resume f y).0 ≢ stuck
resume-answers f (ok a, p) h next = (next a).run p
resume-answers f (err e, p) h next = λ g. cc
resume-answers f (stuck, p) h next = absurd (h refl)

pub bind-IsAnswering :
    {A B : Type 0} {m : L A} {f : A → L B}
    → IsAnswering m
    → ((a : A) → IsAnswering (f a))
    → IsAnswering (m >>= f)
bind-IsAnswering {m = m} {f = f} first next = record {
  run = λ p. resume-answers f (m p) (first.run p) next;
}

if-IsAnswering :
    {A : Type 0} (b : Bool) {m n : L A}
    → IsAnswering m
    → IsAnswering n
    → IsAnswering (if b then m else n)
if-IsAnswering true p q = p
if-IsAnswering false p q = q

checked-IsAnswering : (want : ℕ) (o : Option RawEntry) → IsAnswering (checked want o)
checked-IsAnswering want none = refuse-IsAnswering out_of_range
checked-IsAnswering want (some e) = if-IsAnswering (e.tag == 0) (refuse-IsAnswering unusable_slot) (
    if-IsAnswering (not (want == 0) && not (e.tag == want)) (refuse-IsAnswering wrong_tag)
      (give-IsAnswering e))

pub at-IsAnswering : (i want : ℕ) → IsAnswering (at i want)
unfolding at
at-IsAnswering i want = record {
  run = λ p.
      (if-IsAnswering (i == 0) (refuse-IsAnswering index_zero)
          (checked-IsAnswering want (get_elem? p.entries i))).run
        p;
}

keep_text-answers :
    (i n : ℕ) (b : List ℕ) (r : Result SyntaxError (List ℕ)) (p : ConstPool)
    → Outcome n b r
    → (keep_text i r p).0 ≢ stuck
keep_text-answers i n b (ok s) p h = λ g. cc
keep_text-answers i n b (err e) p h = λ g. cc
keep_text-answers i n b stuck p h = absurd h

text_of-IsAnswering : (i : ℕ) (e : RawEntry) → IsAnswering (text_of i e)
text_of-IsAnswering i e = record {
  run = λ p. elim (Option-cases (kept_text (get_elem? p.strs i))) [
    | inl fresh ↦
        rw (fresh, text_of)
          (keep_text-answers i 0 (take e.b (drop e.a p.src)) _ p
            (decode-Outcome (take e.b (drop e.a p.src))))
    | inr (s, old) ↦ rw (old, text_of) (λ h. cc)
  ];
}

pub utf8_text-IsAnswering : (i : ℕ) → IsAnswering (utf8_text i)
unfolding utf8_text
utf8_text-IsAnswering i = bind-IsAnswering (at-IsAnswering i tag_utf8) (text_of-IsAnswering i)

unfoldable pub answers : Rules
unfolding at utf8_text
answers = record {
  Has = IsAnswering;
  giving = give-IsAnswering;
  refusing = λ {A} e. refuse-IsAnswering e;
  binding = bind-IsAnswering;
  finding = at-IsAnswering;
  text_at = utf8_text-IsAnswering;
}
