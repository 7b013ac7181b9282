-- ===== src/Classfile/ConstPool/Content.antt =====
-- classfile/poolbuilder.go: what the slots of a builder spell, entry by entry.
use mocha.Prelude.{
  All, All-append, Bool, Bool-cases, List, Option, [], ap, append-nil, append_assoc, arith, false,
  if◌then◌else◌, inl, inr, length, ltb, none, refl, some, sym, true, ℕ, ◌%◌, ◌++◌, ◌+◌, ◌-◌, ◌^◌,
  ◌∙◌, ◌∷◌, ◌≡◌, ◌≤◌, ◌⊎◌,
}
use mocha.Classfile.Pool.{
  M, PoolBuilder, PoolError, Slots, add, add_ref1, add_ref2, append_entry, fail, find, intern,
  intern_at, intern_class, intern_double, intern_float, intern_int, intern_long, intern_method_type,
  intern_name_and_type, intern_string, intern_utf8, max_pool_index, member_ref, ref1_entry,
  ref2_entry, remember, tag_class, tag_double, tag_fieldref, tag_float, tag_integer,
  tag_interface_methodref, tag_long, tag_method_type, tag_methodref, tag_name_and_type, tag_string,
  too_many_entries, utf8_at, utf8_entry, utf8_too_long, wide_entry, word_entry, ◌>>=◌,
}
use mocha.Classfile.Pool.Interning.{intern_key}
use mocha.Classfile.Pool.Keys.{
  Key, class, double, float, int, long, member, method_type, name_and_type, string, utf8,
}
use mocha.Jvm.Mutf8.{IsScalar, encode, encoded_len}
use mocha.Jvm.Mutf8.Encode.{encoded_len-encode}

pub data Content : Type 0 where
  text : List ℕ → Content
  class_at string_at method_type_at int_bits float_bits long_bits double_bits : ℕ → Content
  names_at : ℕ → ℕ → Content
  member_at : ℕ → ℕ → ℕ → Content

abbrev pub bytes_of : Content → List ℕ
bytes_of (text s) = utf8_entry s
bytes_of (class_at n) = ref1_entry tag_class n
bytes_of (string_at n) = ref1_entry tag_string n
bytes_of (method_type_at n) = ref1_entry tag_method_type n
bytes_of (int_bits v) = word_entry tag_integer v
bytes_of (float_bits v) = word_entry tag_float v
bytes_of (long_bits v) = wide_entry tag_long v
bytes_of (double_bits v) = wide_entry tag_double v
bytes_of (names_at a b) = ref2_entry tag_name_and_type a b
bytes_of (member_at tag a b) = ref2_entry tag a b

abbrev pub is_eight : Content → Bool
is_eight (long_bits v) = true
is_eight (double_bits v) = true
is_eight _ = false

abbrev pub IsMemberTag : ℕ → Type 0
IsMemberTag tag = (tag ≡ tag_fieldref) ⊎ ((tag ≡ tag_methodref) ⊎ (tag ≡ tag_interface_methodref))

-- What a reader needs of an entry, in a file of this major version.
abbrev pub IsSound : ℕ → Content → Type 0
IsSound major (text s) = All IsScalar s × (length (encode s) ≤ 65535)
IsSound major (member_at tag a b) = IsMemberTag tag
IsSound major (method_type_at n) = 51 ≤ major
IsSound major _ = Unit

abbrev pub slots_of : List Content → Slots
slots_of [] = []
slots_of (c ∷ cs) = some (bytes_of c) ∷ ((if is_eight c then none ∷ [] else []) ++ slots_of cs)

pub record Spelling (major : ℕ) (s : Slots) : Type 0 where
  pub contents : List Content
  pub spelled : s ≡ none ∷ slots_of contents
  pub sound : All (IsSound major) contents

abbrev pub IsSpelled : ℕ → PoolBuilder → Type 0
IsSpelled major p = Spelling major p.slots

pub record Spells (major : ℕ) (m : M) : Type 0 where
  pub after : (p : PoolBuilder) → IsSpelled major p → IsSpelled major (m p).1

slots_of-append : (cs ds : List Content) → slots_of (cs ++ ds) ≡ slots_of cs ++ slots_of ds
slots_of-append [] ds = refl
slots_of-append (c ∷ cs) ds =
    ap (λ (s : Slots). some (bytes_of c) ∷ s)
      (ap (λ (s : Slots). (if is_eight c then none ∷ [] else []) ++ s) (slots_of-append cs ds)
        ∙ sym (append_assoc (if is_eight c then none ∷ [] else []) (slots_of cs) (slots_of ds)))

slots_of_one :
    (c : Content) → slots_of (c ∷ []) ≡ some (bytes_of c) ∷ (if is_eight c then none ∷ [] else [])
slots_of_one c =
    ap (λ (s : Slots). some (bytes_of c) ∷ s) (append-nil (if is_eight c then none ∷ [] else []))

-- The keys whose texts are Go strings, and whose tag is that of a member; a method
-- type needs version 51.
abbrev pub IsReadable : ℕ → Key → Type 0
IsReadable major (utf8 s) = All IsScalar s
IsReadable major (class s) = All IsScalar s
IsReadable major (string s) = All IsScalar s
IsReadable major (method_type s) = All IsScalar s × (51 ≤ major)
IsReadable major (name_and_type name descriptor) = All IsScalar name × All IsScalar descriptor
IsReadable major (member tag owner name descriptor) =
    IsMemberTag tag × All IsScalar owner × All IsScalar name × All IsScalar descriptor
IsReadable major _ = Unit

module _ (major : ℕ) where
  fail-Spells : (e : PoolError) → Spells major (fail e)
  unfolding fail
  fail-Spells e = record {
    after = λ p v.
        elim p.err
          as (λ o.
            let r : ℕ × PoolBuilder = elim o [
              | none ↦ (0, record p { err = some e })
              | some x ↦ (0, p)
            ] in
            IsSpelled major r.1) [ none ↦ v | some x ↦ v ];
  }

  longer :
      (s : Slots) (c : Content)
      → IsSound major c
      → Spelling major s
      → Spelling major (s ++ (some (bytes_of c) ∷ (if is_eight c then none ∷ [] else [])))
  longer s c good v = record {
    contents = v.contents ++ (c ∷ []);
    spelled =
        ap (λ (t : Slots). t ++ (some (bytes_of c) ∷ (if is_eight c then none ∷ [] else [])))
          v.spelled
        ∙ ap (λ (t : Slots). none ∷ (slots_of v.contents ++ t)) (sym (slots_of_one c))
        ∙ ap (λ (t : Slots). none ∷ t) (sym (slots_of-append v.contents (c ∷ [])));
    sound = All-append (IsSound major) v.contents (c ∷ []) v.sound (good, tt);
  }

  if-Spelling :
      (b : Bool) (x y : ℕ × PoolBuilder)
      → IsSpelled major x.1
      → IsSpelled major y.1
      → IsSpelled major (if b then x else y).1
  if-Spelling true x y p q = p
  if-Spelling false x y p q = q

  append_entry-Spells :
      (c : Content) → IsSound major c → Spells major (append_entry (bytes_of c) (is_eight c))
  unfolding append_entry
  append_entry-Spells c good = record {
    after = λ p v.
        if-Spelling (ltb max_pool_index (length p.slots + (if is_eight c then 2 else 1) - 1))
          (fail too_many_entries p)
          (
            length p.slots % 2 ^ 16,
            record p {
              slots = p.slots ++ (some (bytes_of c) ∷ (if is_eight c then none ∷ [] else []));
            },
          )
          ((fail-Spells too_many_entries).after p v) (longer p.slots c good v);
  }

  add-Spells : (c : Content) → IsSound major c → Spells major (add (bytes_of c) (is_eight c))
  unfolding add
  add-Spells c good = record {
    after = λ p v.
        elim p.err
          as (λ o.
            let r : ℕ × PoolBuilder = elim o [
              | some e ↦ (0, p)
              | none ↦ append_entry (bytes_of c) (is_eight c) p
            ] in
            IsSpelled major r.1) [ some e ↦ v | none ↦ (append_entry-Spells c good).after p v ];
  }

  intern_at-Spells :
      (o : Option ℕ) (k : Key) (build : M) → Spells major build → Spells major (intern_at o k build)
  unfolding intern_at remember
  intern_at-Spells none k build spells = record { after = λ p v. spells.after p v }
  intern_at-Spells (some i) k build spells = record { after = λ p v. v }

  intern-Spells : (k : Key) (build : M) → Spells major build → Spells major (intern k build)
  unfolding intern
  intern-Spells k build spells = record {
    after = λ p v. (intern_at-Spells (find k p.map) k build spells).after p v;
  }

  bind-Spells :
      {m : M} {f : ℕ → M} → Spells major m → ((n : ℕ) → Spells major (f n)) → Spells major (m >>= f)
  bind-Spells {m = m} a b = record { after = λ p v. (b (m p).0).after (m p).1 (a.after p v) }

  utf8_at-Spells : (o : Option ℕ) (s : List ℕ) → All IsScalar s → Spells major (utf8_at o s)
  unfolding utf8_at remember
  utf8_at-Spells (some i) s good = record { after = λ p v. v }
  utf8_at-Spells none s good = record {
    after = λ p v. elim (Bool-cases (ltb 65535 (encoded_len s))) [
      | inl over ↦ rw (over, utf8_at) ((fail-Spells utf8_too_long).after p v)
      | inr fits ↦
          rw (fits, utf8_at, remember)
            ((add-Spells (text s) (good, ground (arith, encoded_len-encode s))).after p v)
    ];
  }

  intern_utf8-Spells : (s : List ℕ) → All IsScalar s → Spells major (intern_utf8 s)
  unfolding intern_utf8
  intern_utf8-Spells s good = record {
    after = λ p v. (utf8_at-Spells (find (utf8 s) p.map) s good).after p v;
  }

  intern_class-Spells : (s : List ℕ) → All IsScalar s → Spells major (intern_class s)
  unfolding intern_class add_ref1
  intern_class-Spells s good =
      intern-Spells (class s) _
        (bind-Spells (intern_utf8-Spells s good) λ n. add-Spells (class_at n) tt)

  intern_name_and_type-Spells :
      (name descriptor : List ℕ)
      → All IsScalar name
      → All IsScalar descriptor
      → Spells major (intern_name_and_type name descriptor)
  unfolding intern_name_and_type add_ref2
  intern_name_and_type-Spells name descriptor gn gd =
      intern-Spells (name_and_type name descriptor) _ (
        bind-Spells (intern_utf8-Spells name gn)
          λ n. bind-Spells (intern_utf8-Spells descriptor gd) λ d. add-Spells (names_at n d) tt)

  pub intern_key-Spells : (k : Key) → IsReadable major k → Spells major (intern_key k)
  unfolding intern_string intern_method_type member_ref intern_int intern_long intern_float
      intern_double add_ref1 add_ref2
  intern_key-Spells (utf8 s) g = intern_utf8-Spells s g
  intern_key-Spells (class s) g = intern_class-Spells s g
  intern_key-Spells (string s) g =
      intern-Spells (string s) _
        (bind-Spells (intern_utf8-Spells s g) λ n. add-Spells (string_at n) tt)
  intern_key-Spells (method_type s) (g, new_enough) =
      intern-Spells (method_type s) _
        (bind-Spells (intern_utf8-Spells s g) λ n. add-Spells (method_type_at n) new_enough)
  intern_key-Spells (name_and_type name descriptor) (gn, gd) =
      intern_name_and_type-Spells name descriptor gn gd
  intern_key-Spells (member tag owner name descriptor) (good_tag, go, gn, gd) =
      intern-Spells (member tag owner name descriptor) _ (
        bind-Spells (intern_class-Spells owner go) λ c.
          bind-Spells (intern_name_and_type-Spells name descriptor gn gd)
            λ nt. add-Spells (member_at tag c nt) good_tag)
  intern_key-Spells (int v) g = intern-Spells (int v) _ (add-Spells (int_bits v) tt)
  intern_key-Spells (long v) g = intern-Spells (long v) _ (add-Spells (long_bits v) tt)
  intern_key-Spells (float v) g = intern-Spells (float v) _ (add-Spells (float_bits v) tt)
  intern_key-Spells (double v) g = intern-Spells (double v) _ (add-Spells (double_bits v) tt)
