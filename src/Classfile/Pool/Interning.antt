-- ===== src/Classfile/Pool/Interning.antt =====
-- The interning methods: the index returned stands for the constant, and is returned again.
use mocha.Prelude.{
  Bool-cases, List, Option, arith, false, inl, inr, length, ltb, none, refl, some, true, ℕ, ◌≡◌,
  ◌≤◌,
}
use mocha.Classfile.Pool.{
  M, PoolBuilder, Slots, add, add_ref1, add_ref2, find, intern, intern_class, intern_double,
  intern_float, intern_int, intern_long, intern_method_type, intern_name_and_type, intern_string,
  intern_utf8, member_ref, ref1_entry, ref2_entry, tag_class, tag_method_type, tag_name_and_type,
  tag_string, utf8_at, utf8_entry, utf8_too_long, ◌>>=◌,
}
use mocha.Classfile.Pool.Add.{add-Ensures, fail-Reached}
use mocha.Classfile.Pool.Entries.{Denotes, Denotes-append, Holds, IsNameAndType, IsRef1, IsUtf8}
use mocha.Classfile.Pool.Keys.{
  Key, class, double, float, int, long, member, method_type, name_and_type, string, utf8,
}
use mocha.Classfile.Pool.Remember.{find-All, intern-Ensures, remember_lem}
use mocha.Classfile.Pool.Rules.{
  Any, Ensures, Ensures-bind, Ensures-frame, Ensures-weaken, Inv, Lasting, Reached, Step, Step-refl,
}
use mocha.Jvm.Mutf8.{encode, encoded_len}
use mocha.Jvm.Mutf8.Encode.{encoded_len-encode}

-- A string that was not there: it is refused if its encoding is too long.
utf8_new-Reached :
    (s : List ℕ) (p : PoolBuilder)
    → Inv p
    → find (utf8 s) p.map ≡ none
    → Reached p (λ t i. IsUtf8 t s i) (utf8_at none s p)
unfolding utf8_at
utf8_new-Reached s p v fresh = elim (Bool-cases (ltb 65535 (encoded_len s))) [
  | inl over ↦ rw over (fail-Reached utf8_too_long p (λ t i. IsUtf8 t s i) v)
  | inr fits ↦ rw fits (
      let (step, valid, holds) = (add-Ensures Any (utf8_entry s) false).at p v (λ e. tt) in
      let short : length (encode s) ≤ 65535 = ground (arith, encoded_len-encode s) in
      remember_lem (utf8 s) p (add (utf8_entry s) false p) fresh step valid (λ e. (holds e, short)))
]

intern_utf8-Ensures : (s : List ℕ) → Ensures Any (intern_utf8 s) (λ t i. IsUtf8 t s i)
intern_utf8-Ensures s = record { at = λ p v h. go p v (find (utf8 s) p.map) refl }
  where
    go :
        (p : PoolBuilder)
        → Inv p
        → (o : Option ℕ) → find (utf8 s) p.map ≡ o
        → Reached p (λ t i. IsUtf8 t s i) (intern_utf8 s p)
    go p v none fresh = unfold intern_utf8 in rw fresh (utf8_new-Reached s p v fresh)
    go p v (some i) found =
        unfold intern_utf8 in
        rw found
          (Step-refl p, v, λ e. find-All (Denotes p.slots) (utf8 s) p.map (v.entries e) found)

add_ref1-Ensures :
    (tag : ℕ) (text : List ℕ) (n : ℕ)
    → Ensures (λ s. IsUtf8 s text n) (add_ref1 tag n) (λ s i. IsRef1 s tag text i)
unfolding add_ref1
add_ref1-Ensures tag text n =
    Ensures-weaken (add (ref1_entry tag n) false) (λ s h. (h, tt)) (λ s i (u, h). (n, h, u))
      (Ensures-frame (λ s. IsUtf8 s text n) (add (ref1_entry tag n) false)
        (λ s more h. Denotes-append s more (utf8 text) n h)
        (add-Ensures Any (ref1_entry tag n) false))

-- An entry that refers to a string.
ref1-Ensures :
    (k : Key) (tag : ℕ) (text : List ℕ)
    → ((s : Slots) (i : ℕ) → IsRef1 s tag text i → Denotes s k i)
    → Ensures Any (intern k (do n ← intern_utf8 text; add_ref1 tag n)) (λ s i. Denotes s k i)
ref1-Ensures k tag text means = intern-Ensures k _ (
    Ensures-weaken _ (λ s h. h) means
      (Ensures-bind (intern_utf8 text) (add_ref1 tag) (intern_utf8-Ensures text)
        (λ n. add_ref1-Ensures tag text n)))

add_ref2-Ensures :
    (f g : Slots → Type 0) (tag a b : ℕ)
    → Lasting f
    → Lasting g
    → Ensures
        (λ s. f s × g s)
        (add_ref2 tag a b)
        (λ s i. Holds s i (ref2_entry tag a b) × f s × g s)
unfolding add_ref2
add_ref2-Ensures f g tag a b lf lg =
    Ensures-weaken (add (ref2_entry tag a b) false) (λ s h. (h, tt))
      (λ s i ((hf, hg), h). (h, hf, hg))
      (Ensures-frame (λ s. f s × g s) (add (ref2_entry tag a b) false)
        (λ s more (hf, hg). (lf s more hf, lg s more hg))
        (add-Ensures Any (ref2_entry tag a b) false))

-- An entry that refers to two others, each interned in turn.
pair-Ensures :
    (f g : Slots → ℕ → Type 0) (first second : M) (tag : ℕ)
    → ((i : ℕ) → Lasting (λ s. f s i))
    → ((i : ℕ) → Lasting (λ s. g s i))
    → Ensures Any first f
    → Ensures Any second g
    → Ensures Any
        (do a ← first; b ← second; add_ref2 tag a b)
        (λ s i. (a : ℕ) × (b : ℕ) × Holds s i (ref2_entry tag a b) × f s a × g s b)
pair-Ensures f g first second tag lf lg ef eg = Ensures-bind first _ ef λ a.
    Ensures-bind second (add_ref2 tag a)
      (Ensures-weaken second (λ s h. (h, tt)) (λ s i h. h)
        (Ensures-frame (λ s. f s a) second (lf a) eg))
      λ b.
        Ensures-weaken (add_ref2 tag a b) (λ s h. h) (λ s i h. (a, b, h.0, h.1, h.2))
          (add_ref2-Ensures (λ s. f s a) (λ s. g s b) tag a b (lf a) (lg b))

-- The method that interns the constant of a key.
abbrev pub intern_key : Key → M
intern_key (utf8 s) = intern_utf8 s
intern_key (class s) = intern_class s
intern_key (string s) = intern_string s
intern_key (method_type s) = intern_method_type s
intern_key (name_and_type name descriptor) = intern_name_and_type name descriptor
intern_key (member tag owner name descriptor) = member_ref tag owner name descriptor
intern_key (int v) = intern_int v
intern_key (long v) = intern_long v
intern_key (float v) = intern_float v
intern_key (double v) = intern_double v

name_and_type-Ensures :
    (name descriptor : List ℕ)
    → Ensures Any
        (intern_name_and_type name descriptor)
        (λ s i. Denotes s (name_and_type name descriptor) i)
unfolding intern_name_and_type
name_and_type-Ensures name descriptor = intern-Ensures (name_and_type name descriptor) _ (
    pair-Ensures (λ s i. IsUtf8 s name i) (λ s i. IsUtf8 s descriptor i) (intern_utf8 name)
      (intern_utf8 descriptor) tag_name_and_type
      (λ i s more h. Denotes-append s more (utf8 name) i h)
      (λ i s more h. Denotes-append s more (utf8 descriptor) i h) (intern_utf8-Ensures name)
      (intern_utf8-Ensures descriptor))

class-Ensures : (s : List ℕ) → Ensures Any (intern_class s) (λ t i. Denotes t (class s) i)
unfolding intern_class
class-Ensures s = ref1-Ensures (class s) tag_class s (λ t i h. h)

intern_key-Ensures : (k : Key) → Ensures Any (intern_key k) (λ s i. Denotes s k i)
unfolding intern_string intern_method_type member_ref intern_int intern_long intern_float
    intern_double
intern_key-Ensures (utf8 s) = intern_utf8-Ensures s
intern_key-Ensures (class s) = class-Ensures s
intern_key-Ensures (string s) = ref1-Ensures (string s) tag_string s (λ t i h. h)
intern_key-Ensures (method_type s) = ref1-Ensures (method_type s) tag_method_type s (λ t i h. h)
intern_key-Ensures (name_and_type name descriptor) = name_and_type-Ensures name descriptor
intern_key-Ensures (member tag owner name descriptor) =
    intern-Ensures (member tag owner name descriptor) _ (
      pair-Ensures (λ s i. IsRef1 s tag_class owner i) (λ s i. IsNameAndType s name descriptor i)
        (intern_class owner) (intern_name_and_type name descriptor) tag
        (λ i s more h. Denotes-append s more (class owner) i h)
        (λ i s more h. Denotes-append s more (name_and_type name descriptor) i h)
        (class-Ensures owner) (name_and_type-Ensures name descriptor))
intern_key-Ensures (int v) = intern-Ensures (int v) _ (add-Ensures Any _ false)
intern_key-Ensures (long v) = intern-Ensures (long v) _ (add-Ensures Any _ true)
intern_key-Ensures (float v) = intern-Ensures (float v) _ (add-Ensures Any _ false)
intern_key-Ensures (double v) = intern-Ensures (double v) _ (add-Ensures Any _ true)

-- Interning any constant into a valid builder only adds slots, keeps every index returned before,
-- and leaves a valid builder; unless an error was noted, the index returned leads to the constant's
-- entry, and from it to the entries that it refers to.
pub intern_key_lem :
    (k : Key) (p : PoolBuilder)
    → Inv p
    → Step p (intern_key k p).1
      × Inv (intern_key k p).1
      × ((intern_key k p).1.err ≡ none → Denotes (intern_key k p).1.slots k (intern_key k p).0)
intern_key_lem k p v = (intern_key-Ensures k).at p v (λ e. tt)
