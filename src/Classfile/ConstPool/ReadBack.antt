-- ===== src/Classfile/ConstPool/ReadBack.antt =====
-- classfile/constpool.go and classfile/poolbuilder.go: `readPool` reads what `emit` wrote.
use mocha.Prelude.{
  All, Bool-cases, List, [], ap, append-nil, append_assoc, arith, drop, drop-append, false,
  if◌then◌else◌, inl, inr, length, length-append, none, refl, replicate, some, suc, sym, true, zero,
  ℕ, ◌%◌, ◌++◌, ◌+◌, ◌-◌, ◌==◌, ◌^◌, ◌∙◌, ◌∷◌, ◌≡◌, ◌≤◌,
}
use mocha.Classfile.ConstPool.{
  ConstPool, RawEntry, after_entry, is_wide_tag, pool_of, prepend, read_entry, read_pool,
  read_slots, unusable,
}
use mocha.Classfile.ConstPool.Content.{
  Content, IsSound, IsSpelled, bytes_of, class_at, double_bits, float_bits, int_bits, is_eight,
  long_bits, member_at, method_type_at, names_at, slots_of, string_at, text,
}
use mocha.Classfile.ConstPool.Cursor.{IsAt, IsAt-skip, cursor, read_u2-IsAt}
use mocha.Classfile.ConstPool.Entry.{entry-ReadsBack, entry_of}
use mocha.Classfile.Pool.{PoolBuilder, Slots, count, emit, emit_slots}
use mocha.Classfile.Wire.{raw, read_u2, u2}
use mocha.Classfile.Wire.ReadBack.{u2_bytes}
use mathlib.Core.Path.{subst}

abbrev pub entries_of : ℕ → List Content → List RawEntry
entries_of k [] = []
entries_of k (c ∷ cs) =
    entry_of k c
    ∷ ((if is_eight c then unusable ∷ [] else []) ++ entries_of (k + length (bytes_of c)) cs)

abbrev pub body_of : List Content → List ℕ
body_of [] = []
body_of (c ∷ cs) = bytes_of c ++ body_of cs

is_wide_tag-entry_of :
    (major k : ℕ) (c : Content) → IsSound major c → is_wide_tag (entry_of k c).tag ≡ is_eight c
is_wide_tag-entry_of major k (text s) g = refl
is_wide_tag-entry_of major k (class_at n) g = refl
is_wide_tag-entry_of major k (string_at n) g = refl
is_wide_tag-entry_of major k (method_type_at n) g = refl
is_wide_tag-entry_of major k (int_bits v) g = refl
is_wide_tag-entry_of major k (float_bits v) g = refl
is_wide_tag-entry_of major k (long_bits v) g = refl
is_wide_tag-entry_of major k (double_bits v) g = refl
is_wide_tag-entry_of major k (names_at a b) g = refl
is_wide_tag-entry_of major k (member_at tag a b) g = ground arith

-- A round on a narrow entry, and on one that takes two slots.
narrow_step :
    (n major : ℕ) (src : List ℕ) (k k' : ℕ) (e : RawEntry)
    → read_entry major (cursor src k) ≡ (some e, cursor src k')
    → is_wide_tag e.tag ≡ false
    → read_slots (suc n) major (cursor src k)
      ≡ prepend (e ∷ []) (read_slots n major (cursor src k'))
unfolding read_slots
narrow_step zero major src k k' e reads narrow = rw reads (rw (narrow, after_entry) refl)
narrow_step (suc n) major src k k' e reads narrow = rw reads (rw (narrow, after_entry) refl)

wide_step :
    (n major : ℕ) (src : List ℕ) (k k' : ℕ) (e : RawEntry)
    → read_entry major (cursor src k) ≡ (some e, cursor src k')
    → is_wide_tag e.tag ≡ true
    → read_slots (suc (suc n)) major (cursor src k)
      ≡ prepend (e ∷ unusable ∷ []) (read_slots n major (cursor src k'))
unfolding read_slots
wide_step n major src k k' e reads eight = rw reads (rw (eight, after_entry) refl)

pub read_slots-body :
    (major : ℕ) (src : List ℕ) (cs : List Content) (k : ℕ) (rest : List ℕ)
    → 45 ≤ major
    → All (IsSound major) cs
    → IsAt src k (body_of cs ++ rest)
    → read_slots (length (slots_of cs)) major (cursor src k)
      ≡ (entries_of k cs, cursor src (k + length (body_of cs)))
unfolding read_slots
read_slots-body major src [] k rest old good here = ap (λ (m : ℕ). ([], cursor src m)) (omega arith)
read_slots-body major src (c ∷ cs) k rest old (good, goods) here =
    let at_c : IsAt src k (bytes_of c ++ (body_of cs ++ rest)) =
      subst (λ t. IsAt src k t) (append_assoc (bytes_of c) (body_of cs) rest) here in
    let k' = k + length (bytes_of c) in
    let reads = entry-ReadsBack major src k c (body_of cs ++ rest) old good at_c in
    let more =
      read_slots-body major src cs k' rest old goods
        (IsAt-skip src k (length (bytes_of c)) (bytes_of c) (body_of cs ++ rest) refl at_c) in
    let end : k' + length (body_of cs) ≡ k + length (bytes_of c ++ body_of cs) =
      omega (arith, length-append (bytes_of c) (body_of cs)) in
    elim (Bool-cases (is_eight c)) [
      | inl eight ↦ rw eight (
          wide_step (length (slots_of cs)) major src k k' (entry_of k c) reads
            (is_wide_tag-entry_of major k c good ∙ eight)
          ∙ ap (prepend (entry_of k c ∷ unusable ∷ [])) more
          ∙ ap (λ (m : ℕ). (entry_of k c ∷ unusable ∷ entries_of k' cs, cursor src m)) end)
      | inr narrow ↦ rw narrow (
          narrow_step (length (slots_of cs)) major src k k' (entry_of k c) reads
            (is_wide_tag-entry_of major k c good ∙ narrow)
          ∙ ap (prepend (entry_of k c ∷ [])) more
          ∙ ap (λ (m : ℕ). (entry_of k c ∷ entries_of k' cs, cursor src m)) end)
    ]

emit_slots-body : (cs : List Content) (w : List ℕ) → emit_slots (slots_of cs) w ≡ w ++ body_of cs
unfolding emit_slots raw
emit_slots-body [] w = sym (append-nil w)
emit_slots-body (c ∷ cs) w = elim (Bool-cases (is_eight c)) [
  | inl eight ↦
      rw (eight, emit_slots)
        (emit_slots-body cs (w ++ bytes_of c) ∙ append_assoc w (bytes_of c) (body_of cs))
  | inr narrow ↦
      rw (narrow, emit_slots)
        (emit_slots-body cs (w ++ bytes_of c) ∙ append_assoc w (bytes_of c) (body_of cs))
]

-- The pool that a reader makes of the contents, which start at the offset `k`.
abbrev pub pool_at : List ℕ → ℕ → List Content → ConstPool
pool_at src k cs = record {
  entries = unusable ∷ entries_of k cs;
  src = src;
  strs = replicate (suc (length (slots_of cs))) none;
  bsms = [];
}

read_pool-IsAt :
    (major : ℕ) (src : List ℕ) (k : ℕ) (cs : List Content) (rest : List ℕ)
    → 45 ≤ major
    → All (IsSound major) cs
    → suc (length (slots_of cs)) ≤ 65535
    → IsAt src k (u2_bytes (suc (length (slots_of cs))) ++ (body_of cs ++ rest))
    → read_pool major (cursor src k)
      ≡ (some (pool_at src (k + 2) cs), cursor src (k + 2 + length (body_of cs)))
unfolding read_pool
read_pool-IsAt major src k cs rest old good small here =
    let n = length (slots_of cs) in
    let size : suc n % 2 ^ 16 ≡ suc n = omega arith in
    let one_less : suc n - 1 ≡ n = omega arith in
    let some_slots : (suc n == 0) ≡ false = ground arith in
    let read : read_u2 (cursor src k) ≡ (suc n, cursor src (k + 2)) =
      read_u2-IsAt src k (suc n) (body_of cs ++ rest) here
      ∙ ap (λ (m : ℕ). (m, cursor src (k + 2))) size in
    rw (read, read_pool)
      (rw some_slots (
        rw one_less (
          ap (pool_of src (suc n)) (
            read_slots-body major src cs (k + 2) rest old good
              (IsAt-skip src k 2 (u2_bytes (suc n)) (body_of cs ++ rest) refl here)))))

pub emit-body :
    (major : ℕ) (p : PoolBuilder) (w : List ℕ) (v : IsSpelled major p)
    → length p.slots ≤ 65535
    → emit p w ≡ w ++ (u2_bytes (suc (length (slots_of v.contents))) ++ body_of v.contents)
unfolding emit u2 count
emit-body major p w v small =
    let size : length p.slots % 2 ^ 16 ≡ suc (length (slots_of v.contents)) =
      omega (arith, ap length v.spelled) in
    ap (λ (s : Slots). emit_slots (drop 1 s) (u2 (length p.slots % 2 ^ 16) w)) v.spelled
    ∙ ap (λ (m : ℕ). emit_slots (slots_of v.contents) (u2 m w)) size
    ∙ emit_slots-body v.contents (u2 (suc (length (slots_of v.contents))) w)
    ∙ append_assoc w (u2_bytes (suc (length (slots_of v.contents)))) (body_of v.contents)

-- Where the count of the pool stands in the bytes written.
count_IsAt :
    (major : ℕ) (p : PoolBuilder) (w rest : List ℕ) (v : IsSpelled major p)
    → length p.slots ≤ 65535
    → IsAt
        (emit p w ++ rest)
        (length w)
        (u2_bytes (suc (length (slots_of v.contents))) ++ (body_of v.contents ++ rest))
count_IsAt major p w rest v small =
    let cs = v.contents in
    let count_bytes = u2_bytes (suc (length (slots_of cs))) in
    let spelled : emit p w ++ rest ≡ w ++ (count_bytes ++ (body_of cs ++ rest)) =
      ap (λ (t : List ℕ). t ++ rest) (emit-body major p w v small)
      ∙ append_assoc w (count_bytes ++ body_of cs) rest
      ∙ ap (λ (t : List ℕ). w ++ t) (append_assoc count_bytes (body_of cs) rest) in
    (
      omega (arith, ap length spelled, length-append w (count_bytes ++ (body_of cs ++ rest))),
      ap (drop (length w)) spelled ∙ drop-append w (count_bytes ++ (body_of cs ++ rest)),
    )

-- And where its entries start.
pub emit-IsAt :
    (major : ℕ) (p : PoolBuilder) (w rest : List ℕ) (v : IsSpelled major p)
    → length p.slots ≤ 65535
    → IsAt (emit p w ++ rest) (length w + 2) (body_of v.contents ++ rest)
emit-IsAt major p w rest v small =
    IsAt-skip (emit p w ++ rest) (length w) 2 (u2_bytes (suc (length (slots_of v.contents))))
      (body_of v.contents ++ rest) refl (count_IsAt major p w rest v small)

pub read_pool-emit :
    (major : ℕ) (p : PoolBuilder) (w rest : List ℕ) (v : IsSpelled major p)
    → 45 ≤ major
    → length p.slots ≤ 65535
    → read_pool major (cursor (emit p w ++ rest) (length w)) ≡ (
      some (pool_at (emit p w ++ rest) (length w + 2) v.contents),
      cursor (emit p w ++ rest) (length (emit p w)),
    )
read_pool-emit major p w rest v old small =
    let cs = v.contents in
    let count_bytes = u2_bytes (suc (length (slots_of cs))) in
    let src = emit p w ++ rest in
    let end : length w + 2 + length (body_of cs) ≡ length (emit p w) = omega (
      arith,
      ap length (emit-body major p w v small),
      length-append w (count_bytes ++ body_of cs),
      length-append count_bytes (body_of cs),
    ) in
    read_pool-IsAt major src (length w) cs rest old v.sound (omega (arith, ap length v.spelled))
      (count_IsAt major p w rest v small)
    ∙ ap (λ (m : ℕ). (some (pool_at src (length w + 2) cs), cursor src m)) end
