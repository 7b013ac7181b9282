-- ===== src/Classfile/Pool/Entries.antt =====
-- What an index stands for: the entry in its slot, and those that the entry refers to.
use mocha.Prelude.{List, get_elem?, get_elem?-append_some, length, some, ℕ, ◌++◌, ◌≡◌, ◌≤◌}
use mocha.Classfile.Pool.{
  Slots, ref1_entry, ref2_entry, tag_class, tag_double, tag_float, tag_integer, tag_long,
  tag_method_type, tag_name_and_type, tag_string, utf8_entry, wide_entry, word_entry,
}
use mocha.Classfile.Pool.Keys.{
  Key, class, double, float, int, long, member, method_type, name_and_type, string, utf8,
}
use mocha.Jvm.Mutf8.{encode}

abbrev pub Holds : Slots → ℕ → List ℕ → Type 0
Holds s i b = get_elem? s i ≡ some (some b)

abbrev pub IsUtf8 : Slots → List ℕ → ℕ → Type 0
IsUtf8 s text i = Holds s i (utf8_entry text) × (length (encode text) ≤ 65535)

abbrev pub IsRef1 : Slots → ℕ → List ℕ → ℕ → Type 0
IsRef1 s tag text i = (n : ℕ) × Holds s i (ref1_entry tag n) × IsUtf8 s text n

abbrev pub IsNameAndType : Slots → List ℕ → List ℕ → ℕ → Type 0
IsNameAndType s name descriptor i =
    (n : ℕ) × (d : ℕ) × Holds s i (ref2_entry tag_name_and_type n d)
    × IsUtf8 s name n
    × IsUtf8 s descriptor d

-- Index `i` stands for the constant `k`.
abbrev pub Denotes : Slots → Key → ℕ → Type 0
Denotes s (utf8 text) i = IsUtf8 s text i
Denotes s (class text) i = IsRef1 s tag_class text i
Denotes s (string text) i = IsRef1 s tag_string text i
Denotes s (method_type text) i = IsRef1 s tag_method_type text i
Denotes s (name_and_type name descriptor) i = IsNameAndType s name descriptor i
Denotes s (member tag owner name descriptor) i =
    (c : ℕ) × (nt : ℕ) × Holds s i (ref2_entry tag c nt)
    × IsRef1 s tag_class owner c
    × IsNameAndType s name descriptor nt
Denotes s (int v) i = Holds s i (word_entry tag_integer v)
Denotes s (float v) i = Holds s i (word_entry tag_float v)
Denotes s (long v) i = Holds s i (wide_entry tag_long v)
Denotes s (double v) i = Holds s i (wide_entry tag_double v)

-- Appending slots changes nothing that an index stood for.
module _ (s more : Slots) where
  pub Holds-append : (i : ℕ) {b : List ℕ} → Holds s i b → Holds (s ++ more) i b
  Holds-append i h = get_elem?-append_some s more i h

  IsUtf8-append : (text : List ℕ) (i : ℕ) → IsUtf8 s text i → IsUtf8 (s ++ more) text i
  IsUtf8-append text i (h, fits) = (Holds-append i h, fits)

  IsRef1-append :
      (tag : ℕ) (text : List ℕ) (i : ℕ) → IsRef1 s tag text i → IsRef1 (s ++ more) tag text i
  IsRef1-append tag text i (n, h, u) = (n, Holds-append i h, IsUtf8-append text n u)

  IsNameAndType-append :
      (name descriptor : List ℕ) (i : ℕ)
      → IsNameAndType s name descriptor i
      → IsNameAndType (s ++ more) name descriptor i
  IsNameAndType-append name descriptor i (n, d, h, un, ud) =
      (n, d, Holds-append i h, IsUtf8-append name n un, IsUtf8-append descriptor d ud)

  pub Denotes-append : (k : Key) (i : ℕ) → Denotes s k i → Denotes (s ++ more) k i
  Denotes-append (utf8 text) i h = IsUtf8-append text i h
  Denotes-append (class text) i h = IsRef1-append tag_class text i h
  Denotes-append (string text) i h = IsRef1-append tag_string text i h
  Denotes-append (method_type text) i h = IsRef1-append tag_method_type text i h
  Denotes-append (name_and_type name descriptor) i h = IsNameAndType-append name descriptor i h
  Denotes-append (member tag owner name descriptor) i (c, nt, h, hc, hn) = (
    c,
    nt,
    Holds-append i h,
    IsRef1-append tag_class owner c hc,
    IsNameAndType-append name descriptor nt hn,
  )
  Denotes-append (int v) i h = Holds-append i h
  Denotes-append (float v) i h = Holds-append i h
  Denotes-append (long v) i h = Holds-append i h
  Denotes-append (double v) i h = Holds-append i h
