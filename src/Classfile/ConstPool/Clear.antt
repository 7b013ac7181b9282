-- ===== src/Classfile/ConstPool/Clear.antt =====
-- classfile/constpool.go: steps that come out the same on two pools of one file, whatever texts these have kept.
use mocha.Prelude.{
  Bool, List, Option, Result, ap, drop, err, false, get_elem?, if◌then◌else◌, none, not, ok, refl,
  some, stuck, take, true, ℕ, ◌&&◌, ◌==◌, ◌∙◌, ◌≡◌,
}
use mocha.Classfile.ConstPool.{ConstPool, RawEntry}
use mocha.Classfile.ConstPool.Resolve.{
  L, PoolReadError, at, checked, give, index_zero, kept_text, out_of_range, refuse, resume,
  unusable_slot, wrong_tag, ◌>>=◌,
}
use mocha.Jvm.Mutf8.{decode}
use mathlib.Core.Path.{subst}

abbrev pub slice : List ℕ → RawEntry → List ℕ
slice src e = take e.b (drop e.a src)

-- Every text kept is what the bytes of its entry decode to.
abbrev pub IsFaithful : ConstPool → Type 0
IsFaithful p =
    (i : ℕ) (s : List ℕ) (e : RawEntry)
    → kept_text (get_elem? p.strs i) ≡ some s
    → get_elem? p.entries i ≡ some e
    → decode (slice p.src e) ≡ ok s

-- Two pools of one class file, which may have kept different texts.
pub record SameFile (p q : ConstPool) : Type 0 where
  pub entries_eq : p.entries ≡ q.entries
  pub src_eq : p.src ≡ q.src
  pub bsms_eq : p.bsms ≡ q.bsms

pub SameFile-refl : (p : ConstPool) → SameFile p p
SameFile-refl p = record { entries_eq = refl; src_eq = refl; bsms_eq = refl }

-- Two outcomes agree, and are of the file that `p` is of.
pub record Agree {A : Type 0} (p : ConstPool) (x y : Result PoolReadError A × ConstPool)
    : Type 0 where
  pub value_eq : x.0 ≡ y.0
  pub faithful : IsFaithful x.1 × IsFaithful y.1
  pub same : SameFile x.1 y.1
  pub kept : SameFile p x.1

pub record IsClear {A : Type 0} (m : L A) : Type 0 where
  pub run : (p q : ConstPool) → SameFile p q → IsFaithful p → IsFaithful q → Agree p (m p) (m q)

pub give-IsClear : {A : Type 0} (a : A) → IsClear (give a)
give-IsClear a = record {
  run = λ p q same fp fq. record {
    value_eq = refl;
    faithful = (fp, fq);
    same = same;
    kept = SameFile-refl p;
  };
}

pub refuse-IsClear : {A : Type 0} (e : PoolReadError) → IsClear {A = A} (refuse e)
refuse-IsClear e = record {
  run = λ p q same fp fq. record {
    value_eq = refl;
    faithful = (fp, fq);
    same = same;
    kept = SameFile-refl p;
  };
}

pub SameFile-trans : {p q r : ConstPool} → SameFile p q → SameFile q r → SameFile p r
SameFile-trans a c = record {
  entries_eq = a.entries_eq ∙ c.entries_eq;
  src_eq = a.src_eq ∙ c.src_eq;
  bsms_eq = a.bsms_eq ∙ c.bsms_eq;
}

pub resume-Agree :
    {A B : Type 0} (f : A → L B) (p : ConstPool) (r : Result PoolReadError A) (x y : ConstPool)
    → ((a : A) → IsClear (f a))
    → IsFaithful x × IsFaithful y
    → SameFile x y
    → SameFile p x
    → Agree p (resume f (r, x)) (resume f (r, y))
resume-Agree f p (ok a) x y clear faithful same kept =
    let out = (clear a).run x y same faithful.0 faithful.1 in
    record {
      value_eq = out.value_eq;
      faithful = out.faithful;
      same = out.same;
      kept = SameFile-trans kept out.kept;
    }
resume-Agree f p (err e) x y clear faithful same kept = record {
  value_eq = refl;
  faithful = faithful;
  same = same;
  kept = kept;
}
resume-Agree f p stuck x y clear faithful same kept = record {
  value_eq = refl;
  faithful = faithful;
  same = same;
  kept = kept;
}

pub bind-IsClear :
    {A B : Type 0} {m : L A} {f : A → L B}
    → IsClear m
    → ((a : A) → IsClear (f a))
    → IsClear (m >>= f)
bind-IsClear {m = m} {f = f} clear next = record {
  run = λ p q same fp fq.
      let out = clear.run p q same fp fq in
      subst (λ r. Agree p (resume f (m p)) (resume f (r, (m q).1))) out.value_eq
        (resume-Agree f p (m p).0 (m p).1 (m q).1 next out.faithful out.same out.kept);
}

pub if-IsClear :
    {A : Type 0} (b : Bool) {m n : L A} → IsClear m → IsClear n → IsClear (if b then m else n)
if-IsClear true c d = c
if-IsClear false c d = d

pub checked-IsClear : (want : ℕ) (o : Option RawEntry) → IsClear (checked want o)
checked-IsClear want none = refuse-IsClear out_of_range
checked-IsClear want (some e) = if-IsClear (e.tag == 0) (refuse-IsClear unusable_slot) (
    if-IsClear (not (want == 0) && not (e.tag == want)) (refuse-IsClear wrong_tag) (give-IsClear e))

pub at-IsClear : (i want : ℕ) → IsClear (at i want)
unfolding at
at-IsClear i want = record {
  run = λ p q same fp fq.
      subst (λ o. Agree p (at i want p) ((if i == 0 then refuse index_zero else checked want o) q))
        (ap (λ (es : List RawEntry). get_elem? es i) same.entries_eq)
        ((if-IsClear (i == 0) (refuse-IsClear index_zero)
            (checked-IsClear want (get_elem? p.entries i))).run
          p q same fp fq);
}
