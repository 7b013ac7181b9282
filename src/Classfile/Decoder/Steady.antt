-- ===== src/Classfile/Decoder/Steady.antt =====
-- classfile/decoder.go: bytes behind those that a step reads do not change what it does.
pub mod Attributes
use mocha.Prelude.{
  List, Result, [], ap, arith, drop, err, length, length-append, none, ok, refl, stuck, suc, sym,
  take, zero, ℕ, ◌++◌, ◌+◌, ◌∙◌, ◌∷◌, ◌≡◌, ◌≤◌,
}
use mocha.Classfile.ConstPool.{ConstPool}
use mocha.Classfile.ConstPool.Resolve.{L, PoolReadError}
use mocha.Classfile.Decoder.{
  D, DecodeError, Decoder, finish, give, in_pool, next_bytes, next_u1, next_u2, next_u4, refuse,
  resolved, unresolved, until_done, ◌>>=◌,
}
use mocha.Classfile.Decoder.Checks.{
  answer, finish-cases, finish-clean, resume-split, until_done-cases, until_done-clean,
}
use mocha.Classfile.Wire.{Reader, advance, big_endian, read_bytes, read_u1, read_u2, read_u4, short}

abbrev pub extend : List ℕ → Decoder → Decoder
extend x d = record d { r = record d.r { b = d.r.b ++ x } }

-- What a run that succeeds with no error in the cursor says of the one on more bytes.
pub record IsExtended {A : Type 0} (m : D A) (d : Decoder) (a : A) (d' : Decoder) (x : List ℕ)
    : Type 0 where
  pub clean : d.r.err ≡ none
  pub bytes_eq : d'.r.b ≡ d.r.b
  pub again : m (extend x d) ≡ (ok a, extend x d')

pub record IsSteady {A : Type 0} (m : D A) : Type 0 where
  pub run :
      (d : Decoder) (a : A) (d' : Decoder) (x : List ℕ)
      → m d ≡ (ok a, d')
      → d'.r.err ≡ none
      → IsExtended m d a d' x

pub give-IsSteady : {A : Type 0} (a : A) → IsSteady (give a)
unfolding give
give-IsSteady a = record {
  run = λ d z d' x h clean. record { clean = cc; bytes_eq = cc; again = cc };
}

pub refuse-IsSteady : {A : Type 0} (e : DecodeError) → IsSteady (refuse {A = A} e)
unfolding refuse
refuse-IsSteady e = record { run = λ d z d' x h clean. absurd cc }

pub bind-IsSteady :
    {A B : Type 0} {m : D A} {f : A → D B}
    → IsSteady m
    → ((a : A) → IsSteady (f a))
    → IsSteady (m >>= f)
unfolding ◌>>=◌
bind-IsSteady {m = m} {f = f} first then_f = record {
  run = λ d z d' x h clean.
      let (a, d1, one, two) = resume-split f (m d) h in
      let later = (then_f a).run d1 z d' x two clean in
      let earlier = first.run d a d1 x one later.clean in
      record {
        clean = earlier.clean;
        bytes_eq = later.bytes_eq ∙ earlier.bytes_eq;
        again = rw earlier.again later.again;
      };
}

pub until_done-IsSteady : {A : Type 0} (a : A) {m : D A} → IsSteady m → IsSteady (until_done a m)
until_done-IsSteady a {m} steady = record {
  run = λ d z d' x h clean.
      let (e, h') = until_done-cases a m d h clean in
      let out = steady.run d z d' x h' clean in
      record {
        clean = e;
        bytes_eq = out.bytes_eq;
        again = until_done-clean a (extend x d) m e ∙ out.again;
      };
}

pub finish-IsSteady : {A : Type 0} (a : A) → IsSteady (finish a)
finish-IsSteady a = record {
  run = λ d z d' x h clean.
      let (e, value, same) = finish-cases a d h in
      record {
        clean = e;
        bytes_eq = ap (λ (u : Decoder). u.r.b) same;
        again = finish-clean a (extend x d) e ∙ cc;
      };
}

-- A step that leaves the cursor alone, and does not look at it.
pub aside-IsSteady :
    {A : Type 0} (m : D A) (f : ConstPool → Result DecodeError A × ConstPool)
    → ((d : Decoder) → m d ≡ ((f d.pool).0, record d { pool = (f d.pool).1 }))
    → IsSteady m
aside-IsSteady {A} m f same = record {
  run = λ d z d' x h clean.
      let e = sym (same d) ∙ h in
      let pool_eq = ap (λ (y : Result DecodeError A × Decoder). y.1.pool) e in
      let reader_eq = ap (λ (y : Result DecodeError A × Decoder). y.1.r) e in
      record {
        clean = ap Reader.err reader_eq ∙ clean;
        bytes_eq = sym (ap Reader.b reader_eq);
        again = same (extend x d) ∙ cc;
      };
}

abbrev lifted : {A : Type 0} → Result PoolReadError A → Result DecodeError A
lifted (ok a) = ok a
lifted (err e) = err (unresolved e)
lifted stuck = stuck

pub in_pool-IsSteady : {A : Type 0} (m : L A) → IsSteady (in_pool m)
unfolding in_pool
in_pool-IsSteady {A} m =
    aside-IsSteady (in_pool m) (λ p. (lifted (m p).0, (m p).1)) λ d. each d (m d.pool)
  where
    each :
        (d : Decoder) (y : Result PoolReadError A × ConstPool)
        → resolved d y ≡ (lifted y.0, record d { pool = y.1 })
    each d (ok a, p) = refl
    each d (err e, p) = refl
    each d (stuck, p) = refl

take-append_le : (n : ℕ) (b x : List ℕ) → n ≤ length b → take n (b ++ x) ≡ take n b
take-append_le zero b x h = refl
take-append_le (suc n) [] x h = absurd (omega arith)
take-append_le (suc n) (c ∷ b) x h = ap (◌∷◌ c) (take-append_le n b x (omega arith))

take-drop-append :
    (n off : ℕ) (b x : List ℕ)
    → off + n ≤ length b
    → take n (drop off (b ++ x)) ≡ take n (drop off b)
take-drop-append n zero b x h = take-append_le n b x (omega arith)
take-drop-append n (suc off) [] x h = absurd (omega arith)
take-drop-append n (suc off) (c ∷ b) x h = take-drop-append n off b x (omega arith)

advance-steady :
    {A : Type 0} (n : ℕ) (zero_value : A) (value : List ℕ → A) (r : Reader) (x : List ℕ)
    → (advance n zero_value value (short n r)).1.err ≡ none
    → (r.err ≡ none)
      × ((advance n zero_value value (short n r)).1.b ≡ r.b)
      × (advance n zero_value value (short n (record r { b = r.b ++ x })) ≡ (
        (advance n zero_value value (short n r)).0,
        record (advance n zero_value value (short n r)).1 {
          b = (advance n zero_value value (short n r)).1.b ++ x;
        },
      ))
unfolding short
advance-steady n zero_value value r x clean =
    ground (arith, take-drop-append n r.off r.b x, length-append r.b x)

-- The reads of the cursor.
reading-IsSteady :
    {A : Type 0} (n : ℕ) (zero_value : A) (value : List ℕ → A) (m : D A)
    → ((d : Decoder)
        → m d ≡ (
          ok (advance n zero_value value (short n d.r)).0,
          record d { r = (advance n zero_value value (short n d.r)).1 },
        ))
    → IsSteady m
reading-IsSteady {A} n zero_value value m same = record {
  run = λ d z d' x h clean.
      let e = sym (same d) ∙ h in
      let reader_eq = ap (λ (y : Result DecodeError A × Decoder). y.1.r) e in
      let (c, b_eq, out) =
        advance-steady n zero_value value d.r x (ap Reader.err reader_eq ∙ clean) in
      record {
        clean = c;
        bytes_eq = sym (ap Reader.b reader_eq) ∙ b_eq;
        again =
            same (extend x d)
            ∙ ap (λ (y : A × Reader). answer (ok y.0) (record d { r = y.1 })) out
            ∙ ap (λ (y : Result DecodeError A × Decoder). (y.0, extend x y.1)) e;
      };
}

pub next_u1-IsSteady : IsSteady next_u1
unfolding next_u1 read_u1
next_u1-IsSteady = reading-IsSteady 1 0 (big_endian 0) next_u1 λ d. refl

pub next_u2-IsSteady : IsSteady next_u2
unfolding next_u2 read_u2
next_u2-IsSteady = reading-IsSteady 2 0 (big_endian 0) next_u2 λ d. refl

pub next_u4-IsSteady : IsSteady next_u4
unfolding next_u4 read_u4
next_u4-IsSteady = reading-IsSteady 4 0 (big_endian 0) next_u4 λ d. refl

pub next_bytes-IsSteady : (n : ℕ) → IsSteady (next_bytes n)
unfolding next_bytes read_bytes
next_bytes-IsSteady n = reading-IsSteady n [] (λ v. v) (next_bytes n) λ d. refl
