-- ===== src/Classfile/ConstPool/Meaning.antt =====
-- classfile/constpool.go and classfile/poolbuilder.go: an index that the builder returned resolves to
-- the constant it was returned for.
use mocha.Prelude.{
  All, List, ap, arith, bit_or, false, get_elem?_lt, length, not, ok, refl, some, sym, true, ℕ, ◌%◌,
  ◌&&◌, ◌++◌, ◌<<<◌, ◌<◌, ◌==◌, ◌>>>◌, ◌^◌, ◌∙◌, ◌≡◌, ◌≤◌,
}
use mocha.Classfile.ConstPool.{ConstPool, RawEntry}
use mocha.Classfile.ConstPool.Content.{
  Content, IsReadable, IsSound, IsSpelled, bytes_of, class_at, double_bits, float_bits, int_bits,
  long_bits, member_at, method_type_at, names_at, string_at, text,
}
use mocha.Classfile.ConstPool.Cursor.{IsAt}
use mocha.Classfile.ConstPool.Entry.{entry_of}
use mocha.Classfile.ConstPool.Gives.{Gives, IsOf, at-Gives, bind-Gives, give-Gives, utf8_text-Gives}
use mocha.Classfile.ConstPool.Located.{entry_known}
use mocha.Classfile.ConstPool.ReadBack.{body_of, pool_at}
use mocha.Classfile.ConstPool.Resolve.{
  L, at, bits_const, class_name_of, const_of, const_with, give, is_member_tag, method_type_of,
  name_and_type_of, ref_of, text_const, utf8_text,
}
use mocha.Classfile.Pool.{
  PoolBuilder, tag_class, tag_double, tag_float, tag_integer, tag_long, tag_method_type,
  tag_name_and_type, tag_string,
}
use mocha.Classfile.Pool.Distinct.{IsKey}
use mocha.Classfile.Pool.Entries.{Denotes, Holds, IsNameAndType, IsRef1, IsUtf8}
use mocha.Classfile.Pool.Keys.{
  Key, class, double, float, int, long, member, method_type, name_and_type, string, utf8,
}
use mocha.Classfile.Wire.{short}
use mocha.Jvm.Mutf8.{IsScalar}
use mocha.Prelude.Bits.{bit_or_field}
use mathlib.Core.Path.{subst}

-- What a reader of a file gets for the index of a constant.
abbrev pub Resolves : ℕ → ConstPool → Key → ℕ → Type 0
Resolves major q (utf8 s) i = (utf8_text i q).0 ≡ ok s
Resolves major q (class s) i = (class_name_of i q).0 ≡ ok s
Resolves major q (string s) i = (const_of i major q).0 ≡ ok (text_const tag_string s)
Resolves major q (method_type s) i = (method_type_of i q).0 ≡ ok s
Resolves major q (name_and_type name descriptor) i =
    (name_and_type_of i q).0 ≡ ok (name, descriptor)
Resolves major q (member tag owner name descriptor) i =
    (ref_of i q).0
    ≡ ok (record { tag = tag; class_name = owner; name = name; descriptor = descriptor })
Resolves major q (int v) i = (const_of i major q).0 ≡ ok (bits_const tag_integer v)
Resolves major q (float v) i = (const_of i major q).0 ≡ ok (bits_const tag_float v)
Resolves major q (long v) i = (const_of i major q).0 ≡ ok (bits_const tag_long v)
Resolves major q (double v) i = (const_of i major q).0 ≡ ok (bits_const tag_double v)

halves_join : (v : ℕ) → v < 2 ^ 64 → bit_or (((v >>> 32) % 2 ^ 32) <<< 32) (v % 2 ^ 32) ≡ v
halves_join v small = bit_or_field 32 ((v >>> 32) % 2 ^ 32) (v % 2 ^ 32) (omega arith) ∙ omega arith

-- A key that a file of this major version may hold.
abbrev pub IsKeyOf : ℕ → Key → Type 0
IsKeyOf major (method_type s) = IsKey (method_type s) × (51 ≤ major)
IsKeyOf major k = IsKey k

pub IsKey-IsReadable : (major : ℕ) (k : Key) → IsKeyOf major k → IsReadable major k
IsKey-IsReadable major (utf8 s) g = g
IsKey-IsReadable major (class s) g = g
IsKey-IsReadable major (string s) g = g
IsKey-IsReadable major (method_type s) g = g
IsKey-IsReadable major (name_and_type name descriptor) g = g
IsKey-IsReadable major (member tag owner name descriptor) (low, high, go, gn, gd) =
    (ground arith, go, gn, gd)
IsKey-IsReadable major (int v) g = tt
IsKey-IsReadable major (float v) g = tt
IsKey-IsReadable major (long v) g = tt
IsKey-IsReadable major (double v) g = tt

module _ (major : ℕ) (old : 45 ≤ major) (p : PoolBuilder) (src : List ℕ) (k : ℕ) (rest : List ℕ)
    (v : IsSpelled major p) (bounded : length p.slots ≤ 65535)
    (here : IsAt src k (body_of v.contents ++ rest)) where
  abbrev entries : List RawEntry
  entries = (pool_at src k v.contents).entries

  abbrev Get : {A : Type 0} → L A → A → Type 0
  Get m a = Gives entries src m a

  index_kept : (i : ℕ) {b : List ℕ} → Holds p.slots i b → i % 2 ^ 16 % 2 ^ 16 ≡ i
  index_kept i h = omega (arith, get_elem?_lt p.slots i h)

  text_known : (i : ℕ) (s : List ℕ) → All IsScalar s → IsUtf8 p.slots s i → Get (utf8_text i) s
  text_known i s good (h, short) =
      let (positive, (m, more, found, at_m)) =
        entry_known major p src k rest v i (text s) old here (good, short) h in
      utf8_text-Gives entries src i m s more positive good found at_m

  -- The text behind a reference `n`, as the reader spells the index.
  text_behind :
      (n : ℕ) (s : List ℕ)
      → All IsScalar s
      → IsUtf8 p.slots s n
      → Get (utf8_text (n % 2 ^ 16 % 2 ^ 16)) s
  text_behind n s good u =
      subst (λ m. Get (utf8_text m) s) (sym (index_kept n u.0)) (text_known n s good u)

  entry_at :
      (i want : ℕ) (c : Content) (e : RawEntry)
      → ((m : ℕ) → entry_of m c ≡ e)
      → IsSound major c
      → (e.tag == 0) ≡ false
      → (not (want == 0) && not (e.tag == want)) ≡ false
      → Holds p.slots i (bytes_of c)
      → Get (at i want) e
  entry_at i want c e is sound used wanted h =
      let (positive, (m, more, found, at_m)) =
        entry_known major p src k rest v i c old here sound h in
      at-Gives entries src i want e positive (found ∙ ap some (is m)) used wanted

  pub class_known :
      (i : ℕ) (s : List ℕ) → All IsScalar s → IsRef1 p.slots tag_class s i → Get (class_name_of i) s
  unfolding class_name_of
  class_known i s good (n, h, u) =
      bind-Gives entries src (at i tag_class) (λ e. utf8_text (e.a % 2 ^ 16))
        (entry_at i tag_class (class_at n) _ (λ m. refl) tt refl refl h) (text_behind n s good u)

  method_type_known :
      (i : ℕ) (s : List ℕ)
      → All IsScalar s
      → 51 ≤ major
      → IsRef1 p.slots tag_method_type s i
      → Get (method_type_of i) s
  unfolding method_type_of
  method_type_known i s good new_enough (n, h, u) =
      bind-Gives entries src (at i tag_method_type) (λ e. utf8_text (e.a % 2 ^ 16))
        (entry_at i tag_method_type (method_type_at n) _ (λ m. refl) new_enough refl refl h)
        (text_behind n s good u)

  string_known :
      (i : ℕ) (s : List ℕ)
      → All IsScalar s
      → IsRef1 p.slots tag_string s i
      → Get (const_of i major) (text_const tag_string s)
  unfolding const_of
  string_known i s good (n, h, u) =
      bind-Gives entries src (at i 0) (const_with i major)
        (entry_at i 0 (string_at n) _ (λ m. refl) tt refl refl h)
        (bind-Gives entries src (utf8_text (n % 2 ^ 16 % 2 ^ 16))
          (λ t. give (text_const tag_string t)) (text_behind n s good u) (give-Gives entries src _))

  name_and_type_known :
      (i : ℕ) (name descriptor : List ℕ)
      → All IsScalar name
      → All IsScalar descriptor
      → IsNameAndType p.slots name descriptor i
      → Get (name_and_type_of i) (name, descriptor)
  unfolding name_and_type_of
  name_and_type_known i name descriptor gn gd (n, d, h, un, ud) =
      bind-Gives entries src (at i tag_name_and_type) _
        (entry_at i tag_name_and_type (names_at n d) _ (λ m. refl) tt refl refl h)
        (bind-Gives entries src (utf8_text (n % 2 ^ 16 % 2 ^ 16)) _ (text_behind n name gn un) (
          bind-Gives entries src (utf8_text (d % 2 ^ 16 % 2 ^ 16)) _
            (text_behind d descriptor gd ud) (give-Gives entries src _)))

  bits_known :
      (i : ℕ) (c : Content) (e : RawEntry) (bits : ℕ)
      → ((m : ℕ) → entry_of m c ≡ e)
      → IsSound major c
      → (e.tag == 0) ≡ false
      → const_with i major e ≡ give (bits_const e.tag bits)
      → Holds p.slots i (bytes_of c)
      → Get (const_of i major) (bits_const e.tag bits)
  unfolding const_of
  bits_known i c e bits is sound used known h =
      bind-Gives entries src (at i 0) (const_with i major) (entry_at i 0 c e is sound used refl h)
        (subst (λ m. Get m (bits_const e.tag bits)) (sym known) (give-Gives entries src _))

  member_known :
      (i tag : ℕ) (owner name descriptor : List ℕ)
      → IsReadable major (member tag owner name descriptor)
      → Denotes p.slots (member tag owner name descriptor) i
      → Get
          (ref_of i)
          (record { tag = tag; class_name = owner; name = name; descriptor = descriptor })
  unfolding ref_of
  member_known i tag owner name descriptor (is_member, go, gn, gd) (c, nt, h, hc, hn) =
      let used : (tag == 0) ≡ false = ground arith in
      let known : is_member_tag tag ≡ true = ground arith in
      let e : RawEntry = record { tag = tag; a = c % 2 ^ 16; b = nt % 2 ^ 16 } in
      bind-Gives entries src (at i 0) _
        (entry_at i 0 (member_at tag c nt) e (λ m. refl) is_member used refl h)
        (rw known (
          bind-Gives entries src (class_name_of (c % 2 ^ 16 % 2 ^ 16)) _
            (subst (λ m. Get (class_name_of m) owner) (sym (index_kept c hc.1))
              (class_known c owner go hc))
            (bind-Gives entries src (name_and_type_of (nt % 2 ^ 16 % 2 ^ 16)) _
              (subst (λ m. Get (name_and_type_of m) (name, descriptor)) (sym (index_kept nt hn.2))
                (name_and_type_known nt name descriptor gn gd hn))
              (give-Gives entries src _))))

  pub known_key :
      (q : ConstPool)
      → IsOf entries src q
      → (key : Key) → IsKeyOf major key
      → (i : ℕ) → Denotes p.slots key i
      → Resolves major q key i
  known_key q of (utf8 s) g i h = ((text_known i s g h).run q of).0
  known_key q of (class s) g i h = ((class_known i s g h).run q of).0
  known_key q of (string s) g i h = ((string_known i s g h).run q of).0
  known_key q of (method_type s) g i h = ((method_type_known i s g.0 g.1 h).run q of).0
  known_key q of (name_and_type name descriptor) g i h =
      ((name_and_type_known i name descriptor g.0 g.1 h).run q of).0
  known_key q of (member tag owner name descriptor) g i h =
      ((member_known i tag owner name descriptor
          (IsKey-IsReadable major (member tag owner name descriptor) g) h).run
        q of).0
  known_key q of (int n) g i h =
      ((bits_known i (int_bits n) _ n (λ m. refl) tt refl
          (ap (λ (x : ℕ). give (bits_const tag_integer x)) (omega arith)) h).run
        q of).0
  known_key q of (float n) g i h =
      ((bits_known i (float_bits n) _ n (λ m. refl) tt refl
          (ap (λ (x : ℕ). give (bits_const tag_float x)) (omega arith)) h).run
        q of).0
  known_key q of (long n) g i h =
      ((bits_known i (long_bits n) _ n (λ m. refl) tt refl
          (ap (λ (x : ℕ). give (bits_const tag_long x)) (halves_join n g)) h).run
        q of).0
  known_key q of (double n) g i h =
      ((bits_known i (double_bits n) _ n (λ m. refl) tt refl
          (ap (λ (x : ℕ). give (bits_const tag_double x)) (halves_join n g)) h).run
        q of).0
