-- ===== src/Classfile/Pool/Distinct.antt =====
-- An index tells its constant: what a slot holds, and what that refers to, stands for one key only.
use mocha.Prelude.{
  All, List, ap, arith, get_elem?_lt, length, none, ok, sym, ℕ, ◌<◌, ◌^◌, ◌∷◌, ◌≡◌, ◌≢◌, ◌≤◌,
}
use mocha.Classfile.Pool.{
  PoolBuilder, Slots, ref1_entry, ref2_entry, tag_class, tag_double, tag_fieldref, tag_float,
  tag_integer, tag_interface_methodref, tag_long, tag_method_type, tag_name_and_type, tag_string,
  tag_utf8, utf8_entry, wide_entry, word_entry,
}
use mocha.Classfile.Pool.Again.{intern_all, intern_all_lem}
use mocha.Classfile.Pool.Entries.{Denotes, Denotes-append, Holds, IsNameAndType, IsRef1, IsUtf8}
use mocha.Classfile.Pool.Interning.{intern_key, intern_key_lem}
use mocha.Classfile.Pool.Keys.{
  Key, class, double, float, int, long, member, method_type, name_and_type, string, utf8,
}
use mocha.Classfile.Pool.Rules.{Inv, Step-trans}
use mocha.Classfile.Wire.{raw, u1, u2, u4}
use mocha.Jvm.Mutf8.{IsScalar, decode, encode}
use mocha.Jvm.Mutf8.RoundTrip.{decode-encode}
use mathlib.Core.Path.{subst, ap₂}

-- The keys that the compiler's types allow.
abbrev IsText : List ℕ → Type 0
IsText s = All IsScalar s

abbrev pub IsKey : Key → Type 0
IsKey (utf8 s) = IsText s
IsKey (class s) = IsText s
IsKey (string s) = IsText s
IsKey (method_type s) = IsText s
IsKey (name_and_type name descriptor) = IsText name × IsText descriptor
IsKey (member tag owner name descriptor) =
    (tag_fieldref ≤ tag)
    × (tag ≤ tag_interface_methodref)
    × IsText owner
    × IsText name
    × IsText descriptor
IsKey (int v) = v < 2 ^ 32
IsKey (float v) = v < 2 ^ 32
IsKey (long v) = v < 2 ^ 64
IsKey (double v) = v < 2 ^ 64

module _ (s : Slots) where
  one_content : (i : ℕ) {b c : List ℕ} → Holds s i b → Holds s i c → b ≡ c
  one_content i hb hc = cc

  utf8_one : (a b : List ℕ) (i : ℕ) → IsText a → IsText b → IsUtf8 s a i → IsUtf8 s b i → a ≡ b
  unfolding raw u1 u2
  utf8_one a b i ta tb (ha, _) (hb, _) =
      let content : utf8_entry a ≡ utf8_entry b = one_content i ha hb in
      let same : encode a ≡ encode b = cc in
      let read : decode (encode a) ≡ ok b = rw same (decode-encode b tb) in cc (decode-encode a ta)

  module _ (bounded : length s ≤ 65535) where
    in_range : (i : ℕ) {b : List ℕ} → Holds s i b → i < 2 ^ 16
    in_range i h = omega (arith, get_elem?_lt s i h)

    ref1_one :
        (tag : ℕ) (a b : List ℕ) (i : ℕ)
        → IsText a
        → IsText b
        → IsRef1 s tag a i
        → IsRef1 s tag b i
        → a ≡ b
    unfolding u1 u2
    ref1_one tag a b i ta tb (n, hn, ua) (m, hm, ub) =
        let content : ref1_entry tag n ≡ ref1_entry tag m = one_content i hn hm in
        let same : n ≡ m = ground (arith, in_range n ua.0, in_range m ub.0) in
        utf8_one a b m ta tb (subst (IsUtf8 s a) same ua) ub

    refs_same :
        (tag tag' a b a' b' : ℕ)
        → a < 2 ^ 16
        → b < 2 ^ 16
        → a' < 2 ^ 16
        → b' < 2 ^ 16
        → ref2_entry tag a b ≡ ref2_entry tag' a' b'
        → (tag ≡ tag') × (a ≡ a') × (b ≡ b')
    unfolding u1 u2
    refs_same tag tag' a b a' b' ha hb ha' hb' e = ground arith

    name_and_type_one :
        (na da nb db : List ℕ) (i : ℕ)
        → IsText na
        → IsText da
        → IsText nb
        → IsText db
        → IsNameAndType s na da i
        → IsNameAndType s nb db i
        → (na ≡ nb) × (da ≡ db)
    name_and_type_one na da nb db i tna tda tnb tdb (n, d, h, un, ud) (m, e, h', um, ue) =
        let (_, same_n, same_d) =
          refs_same tag_name_and_type tag_name_and_type n d m e (in_range n un.0) (in_range d ud.0)
            (in_range m um.0) (in_range e ue.0) (one_content i h h') in
        (
          utf8_one na nb m tna tnb (subst (IsUtf8 s na) same_n un) um,
          utf8_one da db e tda tdb (subst (IsUtf8 s da) same_d ud) ue,
        )

    member_one :
        (t u : ℕ) (oa na da ob nb db : List ℕ) (i : ℕ)
        → IsKey (member t oa na da)
        → IsKey (member u ob nb db)
        → Denotes s (member t oa na da) i
        → Denotes s (member u ob nb db) i
        → member t oa na da ≡ member u ob nb db
    member_one t u oa na da ob nb db i (_, _, toa, tna, tda) (_, _, tob, tnb, tdb) (c, n, h, hc, hn)
          (c', n', h', hc', hn') =
        let (same_t, same_c, same_n) =
          refs_same t u c n c' n' (in_range c hc.1) (in_range n hn.2) (in_range c' hc'.1)
            (in_range n' hn'.2) (one_content i h h') in
        let owner =
          ref1_one tag_class oa ob c' toa tob (subst (IsRef1 s tag_class oa) same_c hc) hc' in
        let (name, descriptor) =
          name_and_type_one na da nb db n' tna tda tnb tdb (subst (IsNameAndType s na da) same_n hn)
            hn' in
        cc

word_same : (t v w : ℕ) → v < 2 ^ 32 → w < 2 ^ 32 → word_entry t v ≡ word_entry t w → v ≡ w
unfolding u1 u4
word_same t v w hv hw e = ground arith

wide_same : (t v w : ℕ) → v < 2 ^ 64 → w < 2 ^ 64 → wide_entry t v ≡ wide_entry t w → v ≡ w
unfolding u1 u4
wide_same t v w hv hw e = ground arith

abbrev tag_of : Key → ℕ
tag_of (utf8 s) = tag_utf8
tag_of (class s) = tag_class
tag_of (string s) = tag_string
tag_of (method_type s) = tag_method_type
tag_of (name_and_type name descriptor) = tag_name_and_type
tag_of (member tag owner name descriptor) = tag
tag_of (int v) = tag_integer
tag_of (float v) = tag_float
tag_of (long v) = tag_long
tag_of (double v) = tag_double

-- Every entry starts with its tag.
starts_with_tag :
    (s : Slots) (k : Key) (i : ℕ) → Denotes s k i → (rest : List ℕ) × Holds s i (tag_of k ∷ rest)
unfolding raw u1 u2 u4
starts_with_tag s (utf8 a) i h = (_, h.0)
starts_with_tag s (class a) i h = (_, h.1)
starts_with_tag s (string a) i h = (_, h.1)
starts_with_tag s (method_type a) i h = (_, h.1)
starts_with_tag s (name_and_type a b) i h = (_, h.2)
starts_with_tag s (member t a b c) i h = (_, h.2)
starts_with_tag s (int v) i h = (_, h)
starts_with_tag s (float v) i h = (_, h)
starts_with_tag s (long v) i h = (_, h)
starts_with_tag s (double v) i h = (_, h)

tags_same : (s : Slots) (k j : Key) (i : ℕ) → Denotes s k i → Denotes s j i → tag_of k ≡ tag_of j
tags_same s k j i hk hj =
    let (a, ha) = starts_with_tag s k i hk in
    let (b, hb) = starts_with_tag s j i hj in let content = one_content s i ha hb in cc

by_tag :
    (s : Slots) (k j : Key) (i : ℕ)
    → length s ≤ 65535
    → IsKey k
    → IsKey j
    → tag_of k ≡ tag_of j
    → Denotes s k i
    → Denotes s j i
    → k ≡ j
by_tag s (utf8 a) (utf8 b) i f ka kb t h h' = ap utf8 (utf8_one s a b i ka kb h h')
by_tag s (class a) (class b) i f ka kb t h h' = ap class (ref1_one s f tag_class a b i ka kb h h')
by_tag s (string a) (string b) i f ka kb t h h' =
    ap string (ref1_one s f tag_string a b i ka kb h h')
by_tag s (method_type a) (method_type b) i f ka kb t h h' =
    ap method_type (ref1_one s f tag_method_type a b i ka kb h h')
by_tag s (name_and_type a c) (name_and_type b d) i f ka kb t h h' =
    let (n, e) = name_and_type_one s f a c b d i ka.0 ka.1 kb.0 kb.1 h h' in ap₂ name_and_type n e
by_tag s (member u a c e) (member v b d g) i f ka kb t h h' =
    member_one s f u v a c e b d g i ka kb h h'
by_tag s (int v) (int w) i f ka kb t h h' =
    ap int (word_same tag_integer v w ka kb (one_content s i h h'))
by_tag s (float v) (float w) i f ka kb t h h' =
    ap float (word_same tag_float v w ka kb (one_content s i h h'))
by_tag s (long v) (long w) i f ka kb t h h' =
    ap long (wide_same tag_long v w ka kb (one_content s i h h'))
by_tag s (double v) (double w) i f ka kb t h h' =
    ap double (wide_same tag_double v w ka kb (one_content s i h h'))
by_tag s _ _ i f ka kb t h h' = absurd (omega arith)

distinct_in :
    (s : Slots) (k j : Key) (i : ℕ)
    → length s ≤ 65535
    → IsKey k
    → IsKey j
    → Denotes s k i
    → Denotes s j i
    → k ≡ j
distinct_in s k j i f ka kb h h' = by_tag s k j i f ka kb (tags_same s k j i h h') h h'

-- Two different constants never share an index: the indices that a valid builder returns for them,
-- with any constants interned in between, differ, if no error was noted. (The names are Go strings
-- and the numbers fit their types.)
pub intern_distinct :
    (k j : Key) (ks : List Key) (p : PoolBuilder)
    → Inv p
    → IsKey k
    → IsKey j
    → k ≢ j
    → (intern_key j (intern_all ks (intern_key k p).1)).1.err ≡ none
    → (intern_key k p).0 ≢ (intern_key j (intern_all ks (intern_key k p).1)).0
intern_distinct k j ks p v ka kb differ clean =
    let q = (intern_key k p).1 in
    let (step, valid, holds) = intern_key_lem k p v in
    let (steps, valids) = intern_all_lem ks q valid in
    let (last, valid', holds') = intern_key_lem j (intern_all ks q) valids in
    let path = Step-trans steps last in
    let final = (intern_key j (intern_all ks q)).1.slots in
    let first : Denotes final k (intern_key k p).0 =
      subst (λ s. Denotes s k (intern_key k p).0) (sym path.grows)
        (Denotes-append q.slots path.more k (intern_key k p).0 (holds (path.sticky clean))) in
    λ same. differ (
      distinct_in final k j (intern_key k p).0 valid'.bounded ka kb first
        (subst (Denotes final j) (sym same) (holds' clean)))
