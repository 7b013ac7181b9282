-- ===== src/Classfile/ConstPool/Memo.antt =====
-- classfile/constpool.go: the texts that the pool keeps never change what an index resolves to.
use mocha.Prelude.{
  Bool, Bool-cases, List, Option, Option-cases, Result, [], ap, arith, err, false, get_elem?,
  if◌then◌else◌, inl, inr, length, none, not, ok, refl, replicate, set, some, stuck, suc, sym, true,
  zero, ℕ, ◌&&◌, ◌==◌, ◌∙◌, ◌∷◌, ◌≡◌, ◌⊎◌,
}
use mocha.Classfile.ConstPool.{ConstPool, RawEntry}
use mocha.Classfile.ConstPool.Clear.{
  Agree, IsClear, IsFaithful, SameFile, SameFile-refl, at-IsClear, bind-IsClear, give-IsClear,
  refuse-IsClear, slice,
}
use mocha.Classfile.ConstPool.Resolve.{
  L, PoolReadError, at, bad_text, checked, const_of, give, index_zero, keep_text, kept_text,
  out_of_range, ref_of, refuse, resume, text_of, unusable_slot, utf8_text, wrong_tag,
}
use mocha.Classfile.ConstPool.Rules.{Rules, const_of-Has, ref_of-Has}
use mocha.Classfile.Pool.{tag_utf8}
use mocha.Jvm.Mutf8.{SyntaxError, decode}
use mathlib.Core.Path.{subst}

-- A text is kept in one place.
get_elem?-set :
    (xs : List (Option (List ℕ))) (i j : ℕ) (s t : List ℕ)
    → kept_text (get_elem? (set xs i (some s)) j) ≡ some t
    → ((j ≡ i) × (s ≡ t)) ⊎ (kept_text (get_elem? xs j) ≡ some t)
get_elem?-set [] i j s t h = inr h
get_elem?-set (x ∷ xs) zero zero s t h = inl (refl, ground arith)
get_elem?-set (x ∷ xs) zero (suc j) s t h = inr h
get_elem?-set (x ∷ xs) (suc i) zero s t h = inr h
get_elem?-set (x ∷ xs) (suc i) (suc j) s t h = elim (get_elem?-set xs i j s t h) [
  | inl (e, f) ↦ inl (ap suc e, f)
  | inr g ↦ inr g
]

-- What a text is, whether it was kept or not.
abbrev pub texted : {E : Type 0} → Result E (List ℕ) → Result PoolReadError (List ℕ)
texted (ok s) = ok s
texted (err e) = err bad_text
texted stuck = stuck

abbrev pub TextOutcome :
    ℕ → RawEntry → ConstPool → Result PoolReadError (List ℕ) × ConstPool → Type 0
TextOutcome i e p (r, p') = (r ≡ texted (decode (slice p.src e))) × IsFaithful p' × SameFile p p'

some_inj : {A : Type 0} {x y : A} → some x ≡ some y → x ≡ y
some_inj h = cc

same_entry :
    (p : ConstPool) (i j : ℕ) (e e' : RawEntry)
    → j ≡ i
    → get_elem? p.entries i ≡ some e
    → get_elem? p.entries j ≡ some e'
    → e' ≡ e
same_entry p i j e e' same here found =
    some_inj (sym found ∙ ap (λ (k : ℕ). get_elem? p.entries k) same ∙ here)

keep_text-outcome :
    (i : ℕ) (e : RawEntry) (p : ConstPool) (r : Result SyntaxError (List ℕ))
    → decode (slice p.src e) ≡ r
    → get_elem? p.entries i ≡ some e
    → IsFaithful p
    → TextOutcome i e p (keep_text i r p)
keep_text-outcome i e p (ok s) h here faithful = (
  ap texted (sym h),
  λ j t e' kept found. elim (get_elem?-set p.strs i j s t kept) [
    | inl (same, text_eq) ↦
        ap (λ (x : RawEntry). decode (slice p.src x)) (same_entry p i j e e' same here found)
        ∙ h
        ∙ ap ok text_eq
    | inr old ↦ faithful j t e' old found
  ],
  record { entries_eq = refl; src_eq = refl; bsms_eq = refl },
)
keep_text-outcome i e p (err x) h here faithful = (ap texted (sym h), faithful, SameFile-refl p)
keep_text-outcome i e p stuck h here faithful = (ap texted (sym h), faithful, SameFile-refl p)

pub text_of-outcome :
    (i : ℕ) (e : RawEntry) (p : ConstPool)
    → get_elem? p.entries i ≡ some e
    → IsFaithful p
    → TextOutcome i e p (text_of i e p)
text_of-outcome i e p here faithful = elim (Option-cases (kept_text (get_elem? p.strs i))) [
  | inl fresh ↦ rw (fresh, text_of) (keep_text-outcome i e p _ refl here faithful)
  | inr (s, old) ↦
      rw (old, text_of) (ap texted (sym (faithful i s e old here)), faithful, SameFile-refl p)
]

text_of-Agree :
    (i : ℕ) (e : RawEntry) (p q : ConstPool)
    → get_elem? p.entries i ≡ some e
    → SameFile p q
    → IsFaithful p
    → IsFaithful q
    → Agree p (text_of i e p) (text_of i e q)
text_of-Agree i e p q here same fp fq =
    let (v, f, k) = text_of-outcome i e p here fp in
    let (v', f', k') =
      text_of-outcome i e q
        (ap (λ (es : List RawEntry). get_elem? es i) (sym same.entries_eq) ∙ here) fq in
    record {
      value_eq = v ∙ ap (λ (src : List ℕ). texted (decode (slice src e))) same.src_eq ∙ sym v';
      faithful = (f, f');
      same = record {
        entries_eq = sym k.entries_eq ∙ same.entries_eq ∙ k'.entries_eq;
        src_eq = sym k.src_eq ∙ same.src_eq ∙ k'.src_eq;
        bsms_eq = sym k.bsms_eq ∙ same.bsms_eq ∙ k'.bsms_eq;
      };
      kept = k;
    }

-- The tests of an entry come out the same, and what follows them agrees.
tested-Agree :
    {A : Type 0} (b c : Bool) (e : RawEntry) (f : RawEntry → L A) (p q : ConstPool)
    → SameFile p q
    → IsFaithful p
    → IsFaithful q
    → Agree p (f e p) (f e q)
    → Agree p
        (resume f ((if b then refuse unusable_slot else if c then refuse wrong_tag else give e) p))
        (resume f ((if b then refuse unusable_slot else if c then refuse wrong_tag else give e) q))
tested-Agree true c e f p q same fp fq out = (refuse-IsClear unusable_slot).run p q same fp fq
tested-Agree false true e f p q same fp fq out = (refuse-IsClear wrong_tag).run p q same fp fq
tested-Agree false false e f p q same fp fq out = out

found_text-Agree :
    (i : ℕ) (o : Option RawEntry) (p q : ConstPool)
    → get_elem? p.entries i ≡ o
    → SameFile p q
    → IsFaithful p
    → IsFaithful q
    → Agree p
        (resume (text_of i) (checked tag_utf8 o p))
        (resume (text_of i) (checked tag_utf8 o q))
found_text-Agree i none p q here same fp fq = (refuse-IsClear out_of_range).run p q same fp fq
found_text-Agree i (some e) p q here same fp fq =
    tested-Agree (e.tag == 0) (not (tag_utf8 == 0) && not (e.tag == tag_utf8)) e (text_of i) p q
      same fp fq (text_of-Agree i e p q here same fp fq)

utf8_text-IsClear : (i : ℕ) → IsClear (utf8_text i)
unfolding utf8_text at
utf8_text-IsClear i = record {
  run = λ p q same fp fq. elim (Bool-cases (i == 0)) [
    | inl z ↦ rw (z, utf8_text, at) ((refuse-IsClear index_zero).run p q same fp fq)
    | inr z ↦
        rw (z, utf8_text, at)
          (subst
            (λ o.
              Agree p (resume (text_of i) (checked tag_utf8 (get_elem? p.entries i) p))
                (resume (text_of i) (checked tag_utf8 o q)))
            (ap (λ (es : List RawEntry). get_elem? es i) same.entries_eq)
            (found_text-Agree i (get_elem? p.entries i) p q refl same fp fq))
  ];
}

unfoldable clear : Rules
unfolding at utf8_text
clear = record {
  Has = IsClear;
  giving = give-IsClear;
  refusing = λ {A} e. refuse-IsClear e;
  binding = bind-IsClear;
  finding = at-IsClear;
  text_at = utf8_text-IsClear;
}

abbrev pub forget : ConstPool → ConstPool
forget p = record p { strs = replicate (length p.strs) none }

pub kept_text-replicate : (n i : ℕ) → kept_text (get_elem? (replicate n none) i) ≡ none
kept_text-replicate zero i = refl
kept_text-replicate (suc n) zero = refl
kept_text-replicate (suc n) (suc i) = kept_text-replicate n i

pub forget-IsFaithful : (p : ConstPool) → IsFaithful (forget p)
forget-IsFaithful p i s e h found = cc (kept_text-replicate (length p.strs) i, h)

-- The texts that a pool has kept do not change what it resolves an index to, as a loadable constant or
-- as a member: the result, or the error, is that of the same pool with nothing kept. What is kept
-- afterwards is again what the bytes decode to, and the entries and the bytes stay as they are.
pub const_of-forget :
    (i major : ℕ) (p : ConstPool)
    → IsFaithful p
    → ((const_of i major p).0 ≡ (const_of i major (forget p)).0)
      × IsFaithful (const_of i major p).1
      × SameFile p (const_of i major p).1
      × ((ref_of i p).0 ≡ (ref_of i (forget p)).0)
      × IsFaithful (ref_of i p).1
      × SameFile p (ref_of i p).1
unfolding clear
const_of-forget i major p faithful =
    let same : SameFile p (forget p) = record {
      entries_eq = refl;
      src_eq = refl;
      bsms_eq = refl;
    } in
    let c = (const_of-Has clear i major).run p (forget p) same faithful (forget-IsFaithful p) in
    let r = (ref_of-Has clear i).run p (forget p) same faithful (forget-IsFaithful p) in
    (c.value_eq, c.faithful.0, c.kept, r.value_eq, r.faithful.0, r.kept)
