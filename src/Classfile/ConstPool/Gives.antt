-- ===== src/Classfile/ConstPool/Gives.antt =====
-- classfile/constpool.go: what the methods of `Pool` answer for the entries of a builder.
use mocha.Prelude.{
  All, List, [], ap, arith, drop, false, get_elem?, length, not, ok, refl, some, sym, take,
  take-append, ℕ, ◌%◌, ◌&&◌, ◌++◌, ◌+◌, ◌==◌, ◌^◌, ◌∙◌, ◌≡◌, ◌≢◌,
}
use mocha.Classfile.ConstPool.{ConstPool, RawEntry}
use mocha.Classfile.ConstPool.Clear.{IsFaithful}
use mocha.Classfile.ConstPool.Content.{text}
use mocha.Classfile.ConstPool.Cursor.{IsAt, IsAt-skip}
use mocha.Classfile.ConstPool.Entry.{entry_of}
use mocha.Classfile.ConstPool.Memo.{text_of-outcome, texted}
use mocha.Classfile.ConstPool.Resolve.{L, at, checked, give, resume, text_of, utf8_text, ◌>>=◌}
use mocha.Classfile.Pool.{tag_utf8, utf8_entry}
use mocha.Classfile.Wire.{raw, u1, u2}
use mocha.Jvm.Mutf8.{IsScalar, decode, encode}
use mocha.Jvm.Mutf8.RoundTrip.{decode-encode}
use mathlib.Core.Path.{subst}

module _ (es : List RawEntry) (src : List ℕ) where
  -- A pool of these entries and bytes, whatever texts it has kept.
  pub record IsOf (q : ConstPool) : Type 0 where
    pub entries_eq : q.entries ≡ es
    pub src_eq : q.src ≡ src
    pub faithful : IsFaithful q

  pub record Gives {A : Type 0} (m : L A) (a : A) : Type 0 where
    pub run : (q : ConstPool) → IsOf q → ((m q).0 ≡ ok a) × IsOf (m q).1

  pub give-Gives : {A : Type 0} (a : A) → Gives (give a) a
  give-Gives a = record { run = λ q of. (refl, of) }

  pub bind-Gives :
      {A B : Type 0} (m : L A) (f : A → L B) {a : A} {b : B}
      → Gives m a
      → Gives (f a) b
      → Gives (m >>= f) b
  bind-Gives m f {a} {b} first next = record {
    run = λ q of.
        let (value, of') = first.run q of in
        subst (λ r. ((resume f (r, (m q).1)).0 ≡ ok b) × IsOf (resume f (r, (m q).1)).1) (sym value)
          (next.run (m q).1 of');
  }

  pub at-Gives :
      (i want : ℕ) (e : RawEntry)
      → i ≢ 0
      → get_elem? es i ≡ some e
      → (e.tag == 0) ≡ false
      → (not (want == 0) && not (e.tag == want)) ≡ false
      → Gives (at i want) e
  unfolding at
  at-Gives i want e positive here used wanted = record {
    run = λ q of.
        let found : get_elem? q.entries i ≡ some e =
          ap (λ (x : List RawEntry). get_elem? x i) of.entries_eq ∙ here in
        let some_index : (i == 0) ≡ false = ground arith in
        rw (some_index, at)
          (rw (found, checked) (rw (used, checked) (rw (wanted, checked) (refl, of))));
  }

  pub utf8_text-Gives :
      (i m : ℕ) (s more : List ℕ)
      → i ≢ 0
      → All IsScalar s
      → get_elem? es i ≡ some (entry_of m (text s))
      → IsAt src m (utf8_entry s ++ more)
      → Gives (utf8_text i) s
  unfolding utf8_text u1 u2 raw
  utf8_text-Gives i m s more positive good here at_m =
      bind-Gives (at i tag_utf8) (text_of i)
        (at-Gives i tag_utf8 (entry_of m (text s)) positive here refl refl)
        (record {
          run = λ q of.
              let found : get_elem? q.entries i ≡ some (entry_of m (text s)) =
                ap (λ (x : List RawEntry). get_elem? x i) of.entries_eq ∙ here in
              let (value, faithful, same) =
                text_of-outcome i (entry_of m (text s)) q found of.faithful in
              let behind =
                IsAt-skip src m 3 (u2 (length (encode s) % 2 ^ 16) (u1 tag_utf8 []))
                  (encode s ++ more) refl at_m in
              let bytes : take (length (encode s)) (drop (m + 3) q.src) ≡ encode s =
                ap (λ (x : List ℕ). take (length (encode s)) (drop (m + 3) x)) of.src_eq
                ∙ ap (take (length (encode s))) behind.1
                ∙ take-append (encode s) more in
              (
                value
                    ∙ ap (λ (x : List ℕ). texted (decode x)) bytes
                    ∙ ap texted (decode-encode s good),
                record {
                  entries_eq = sym same.entries_eq ∙ of.entries_eq;
                  src_eq = sym same.src_eq ∙ of.src_eq;
                  faithful = faithful;
                },
              );
        })
