-- ===== src/Jvm/Desc/Fields.antt =====
-- Field and return descriptors: parsing and printing are inverse.
use mocha.Prelude.{
  All, Bool, Bool-cases, List, Option, Result, [], ap, append-nil, append_assoc, arith, drop,
  drop-length, drop-prefix, err, false, inl, inr, length, length-append, length-replicate, ltb,
  none, ok, refl, replicate, some, stuck, suc, sym, take, take-append, true, ℕ, ◌++◌, ◌+◌, ◌>>=◌,
  ◌↔◌, ◌∙◌, ◌∷◌, ◌≡◌, ◌≢◌, ◌≤◌,
}
use mocha.Jvm.Desc.{
  DescType, Kind, Reason, all_of, base_char, class_at, class_named, count_dims, element_string,
  index_byte, invalid, max_dims, object, parse_class, parse_element, parse_field, parse_return,
  parse_type, type_string, void,
}
use mocha.Jvm.Desc.Elements.{
  count_dims-replicate, drop-replicate, index_byte-append, index_byte-some, replicate-count_dims,
}
use mathlib.Core.Path.{subst}

-- What may stand behind the brackets: a class name is not empty and holds no semicolon, and only a
-- return type is void.
abbrev pub IsElement : Bool → Kind → ℕ → List ℕ → Type 0
IsElement allow invalid dims name = ⊥
IsElement allow void dims name = (allow ≡ true) × (dims ≡ 0) × (name ≡ [])
IsElement allow object dims name = (name ≢ []) × All (λ c. c ≢ b';') name
IsElement allow kind dims name = name ≡ []

-- The descriptors of the grammar; the flag admits void.
abbrev pub IsType : Bool → DescType → Type 0
IsType allow t = (t.dims ≤ max_dims) × IsElement allow t.kind t.dims t.name

parse_class-append :
    (dims : ℕ) (name rest : List ℕ)
    → name ≢ []
    → All (λ c. c ≢ b';') name
    → parse_class dims (name ++ (b';' ∷ rest))
      ≡ ok (record { kind = object; dims = dims; name = name }, dims + length name + 2)
unfolding parse_class
parse_class-append dims [] rest ne h = absurd (ne refl)
parse_class-append dims (c ∷ name) rest ne h =
    rw (index_byte-append b';' (c ∷ name) rest h) (rw (take-append (c ∷ name) (b';' ∷ rest)))

parse_element-append :
    (allow : Bool) (kind : Kind) (dims : ℕ) (name rest : List ℕ)
    → IsElement allow kind dims name
    → parse_element allow dims (element_string kind name ++ rest)
      ≡ ok (
        record { kind = kind; dims = dims; name = name },
        dims + length (element_string kind name),
      )
unfolding parse_element
parse_element-append allow invalid dims name rest h = absurd h
parse_element-append allow object dims name rest h = ground (
  arith,
  parse_class-append dims name rest h.0 h.1,
  append_assoc name (b';' ∷ []) rest,
  length-append name (b';' ∷ []),
)
parse_element-append allow kind dims name rest h = ground arith

-- No element begins with a bracket or a closing parenthesis.
pub element_head :
    (kind : Kind) (name rest : List ℕ)
    → (c : ℕ) × (tail : List ℕ) × (element_string kind name ++ rest ≡ c ∷ tail)
      × (c ≢ b'[')
      × (c ≢ b')')
element_head object name rest = (_, _, refl, ground arith, ground arith)
element_head kind name rest = (base_char kind, rest, refl, ground arith, ground arith)

-- A descriptor is read from in front of anything, with the number of its bytes.
pub parse_type-append :
    (allow : Bool) (t : DescType) (rest : List ℕ)
    → IsType allow t
    → parse_type (type_string t ++ rest) allow ≡ ok (t, length (type_string t))
unfolding parse_type type_string
parse_type-append allow t rest (fits, h) =
    let (c, tail, e, ne, _) = element_head t.kind t.name rest in
    let marks = replicate t.dims b'[' in
    let element = element_string t.kind t.name in
    let dims_eq : count_dims (marks ++ (element ++ rest)) ≡ t.dims =
      subst (λ s. count_dims (marks ++ s) ≡ t.dims) (sym e)
        (count_dims-replicate t.dims c tail ne) in
    rw append_assoc (
      rw dims_eq (
        rw (drop-replicate t.dims b'[' (element ++ rest)) (
          ground (
            arith,
            parse_element-append allow t.kind t.dims t.name rest h,
            length-append marks element,
            length-replicate {A = ℕ} t.dims b'[',
          ))))

-- What the code behind the brackets accepts.
abbrev ParsedElement : Bool → ℕ → List ℕ → Result Reason (DescType × ℕ) → Type 0
ParsedElement allow dims s (ok (t, n)) =
    IsElement allow t.kind dims t.name
    × (t.dims ≡ dims)
    × (n ≡ dims + length (element_string t.kind t.name))
    × (element_string t.kind t.name ++ drop (length (element_string t.kind t.name)) s ≡ s)
ParsedElement allow dims s (err e) = Unit
ParsedElement allow dims s stuck = ⊥

class_at-Parsed :
    (allow : Bool) (dims : ℕ) (rest : List ℕ) (o : Option ℕ)
    → index_byte b';' rest ≡ o
    → ParsedElement allow dims (b'L' ∷ rest) (class_at dims rest o)
unfolding class_at
class_at-Parsed allow dims rest none e = tt
class_at-Parsed allow dims rest (some j) e =
    let (free, split, size) = index_byte-some b';' rest j e in
    named (take j rest) (drop (suc j) rest) free split size
  where
    named :
        (name tail : List ℕ)
        → All (λ c. c ≢ b';') name
        → name ++ (b';' ∷ tail) ≡ rest
        → length name ≡ j
        → ParsedElement allow dims (b'L' ∷ rest) (class_named dims j name)
    named [] tail free split size = tt
    named (c ∷ name) tail free split size = (
      ((λ e. cc), free),
      refl,
      omega (arith, length-append (c ∷ name) (b';' ∷ [])),
      ap (◌∷◌ b'L')
          (drop-prefix ((c ∷ name) ++ (b';' ∷ [])) tail
            (append_assoc (c ∷ name) (b';' ∷ []) tail ∙ split)).1,
    )

parse_element-Parsed :
    (allow : Bool) (dims : ℕ) (s : List ℕ) → ParsedElement allow dims s (parse_element allow dims s)
unfolding parse_element
parse_element-Parsed allow dims [] = tt
parse_element-Parsed allow dims (c ∷ rest) =
    ground (arith, class_at-Parsed allow dims rest (index_byte b';' rest) refl)

-- What `parse_type` accepts is in the grammar, and printing it gives back the bytes taken.
abbrev pub Parsed : Bool → List ℕ → Result Reason (DescType × ℕ) → Type 0
Parsed allow s (ok (t, n)) =
    IsType allow t × (n ≡ length (type_string t)) × (type_string t ++ drop n s ≡ s) × (1 ≤ n)
Parsed allow s (err e) = Unit
Parsed allow s stuck = ⊥

-- The brackets put in front of an element.
type_string-drop :
    (t : DescType) (n : ℕ) (s : List ℕ)
    → t.dims ≡ count_dims s
    → n ≡ count_dims s + length (element_string t.kind t.name)
    → element_string t.kind t.name
        ++ drop (length (element_string t.kind t.name)) (drop (count_dims s) s)
      ≡ drop (count_dims s) s
    → (n ≡ length (type_string t)) × (type_string t ++ drop n s ≡ s)
unfolding type_string
type_string-drop t n s dims_eq size e =
    let element = element_string t.kind t.name in
    let rest = drop (length element) (drop (count_dims s) s) in
    let whole : (replicate t.dims b'[' ++ element) ++ rest ≡ s =
      rw (dims_eq, append_assoc, e) (replicate-count_dims s) in
    let n_eq : n ≡ length (replicate t.dims b'[' ++ element) = omega (
      arith,
      length-append (replicate t.dims b'[') element,
      length-replicate {A = ℕ} t.dims b'[',
    ) in
    (n_eq, rw n_eq (drop-prefix (replicate t.dims b'[' ++ element) rest whole).1)

element_string-length : (kind : Kind) (name : List ℕ) → 1 ≤ length (element_string kind name)
element_string-length object name = omega arith
element_string-length kind name = omega arith

pub type_string-length : (t : DescType) → 1 ≤ length (type_string t)
unfolding type_string
type_string-length t = omega (
  arith,
  length-append (replicate t.dims b'[') (element_string t.kind t.name),
  element_string-length t.kind t.name,
)

pub parse_type-Parsed : (allow : Bool) (s : List ℕ) → Parsed allow s (parse_type s allow)
unfolding parse_type
parse_type-Parsed allow s = elim (Bool-cases (ltb max_dims (count_dims s))) [
  | inl over ↦ rw over tt
  | inr fits ↦ rw fits (
      behind (parse_element allow (count_dims s) (drop (count_dims s) s))
        (parse_element-Parsed allow (count_dims s) (drop (count_dims s) s)) (ground arith))
]
  where
    behind :
        (r : Result Reason (DescType × ℕ))
        → ParsedElement allow (count_dims s) (drop (count_dims s) s) r
        → count_dims s ≤ max_dims
        → Parsed allow s r
    behind (ok (t, n)) (h, dims_eq, size, e) fits =
        let (n_eq, whole) = type_string-drop t n s dims_eq size e in
        (
          (omega arith, subst (λ d. IsElement allow t.kind d t.name) (sym dims_eq) h),
          n_eq,
          whole,
          omega (arith, element_string-length t.kind t.name),
        )
    behind (err e) h fits = tt
    behind stuck h fits = h

-- The parse took all of the input.
all_of-Parsed :
    (allow : Bool) (s : List ℕ) (t : DescType) (r : Result Reason (DescType × ℕ))
    → Parsed allow s r
    → (r >>= all_of s) ≡ ok t
    → IsType allow t × (type_string t ≡ s)
all_of-Parsed allow s t (ok (u, n)) (h, size, e, taken) p =
    let same : u ≡ t = ground arith in
    let whole : n ≡ length s = ground arith in
    subst (λ v. IsType allow v × (type_string v ≡ s)) same
      (h, rw (whole, drop-length s, append-nil) at e)
all_of-Parsed allow s t (err e) h p = cc
all_of-Parsed allow s t stuck h p = absurd h

parse_type_whole :
    (allow : Bool) (t : DescType)
    → IsType allow t
    → (parse_type (type_string t) allow >>= all_of (type_string t)) ≡ ok t
parse_type_whole allow t h =
    let e : parse_type (type_string t) allow ≡ ok (t, length (type_string t)) =
      rw append-nil at (parse_type-append allow t [] h) in
    rw e (ground arith)

-- A field descriptor parses to `t` exactly when it spells `t` and `t` is in the grammar.
pub parse_field_iff :
    (s : List ℕ) (t : DescType) → (parse_field s ≡ ok t) ↔ (IsType false t × (type_string t ≡ s))
unfolding parse_field
parse_field_iff s t = (
  all_of-Parsed false s t (parse_type s false) (parse_type-Parsed false s),
  λ (h, e). rw (← e) (parse_type_whole false t h),
)

-- A return descriptor parses to `t` exactly when it spells `t` and `t` is void or a field type.
pub parse_return_iff :
    (s : List ℕ) (t : DescType) → (parse_return s ≡ ok t) ↔ (IsType true t × (type_string t ≡ s))
unfolding parse_return
parse_return_iff s t = (
  all_of-Parsed true s t (parse_type s true) (parse_type-Parsed true s),
  λ (h, e). rw (← e) (parse_type_whole true t h),
)
