-- ===== src/Classfile/ConstPool/Located.antt =====
-- classfile/constpool.go: a slot of the builder, found among the entries that were read.
use mocha.Prelude.{
  All, Bool, List, [], ap, append_assoc, arith, false, get_elem?, if◌then◌else◌, length, none, refl,
  some, suc, sym, true, zero, ℕ, ◌++◌, ◌+◌, ◌∙◌, ◌∷◌, ◌≡◌, ◌≢◌, ◌≤◌,
}
use mocha.Classfile.ConstPool.{RawEntry, unusable}
use mocha.Classfile.ConstPool.Content.{Content, IsSound, IsSpelled, bytes_of, is_eight, slots_of}
use mocha.Classfile.ConstPool.Cursor.{IsAt, IsAt-skip}
use mocha.Classfile.ConstPool.Entry.{entry-ReadsBack, entry_of}
use mocha.Classfile.ConstPool.ReadBack.{body_of, entries_of, pool_at}
use mocha.Classfile.Pool.{PoolBuilder, Slots}
use mocha.Classfile.Pool.Entries.{Holds}
use mathlib.Core.Path.{subst}

-- The entry that was read for a slot is the one its bytes determine.
abbrev pub Located : List ℕ → List RawEntry → ℕ → Content → Type 0
Located src es i d =
    (m : ℕ) × (more : List ℕ) × (get_elem? es i ≡ some (entry_of m d))
    × IsAt src m (bytes_of d ++ more)

same_entry :
    (major : ℕ) (src : List ℕ) (k : ℕ) (c d : Content) (rest : List ℕ)
    → 45 ≤ major
    → IsSound major c
    → IsSound major d
    → bytes_of c ≡ bytes_of d
    → IsAt src k (bytes_of c ++ rest)
    → entry_of k c ≡ entry_of k d
same_entry major src k c d rest old gc gd same here =
    let one = entry-ReadsBack major src k c rest old gc here in
    let two =
      entry-ReadsBack major src k d rest old gd (subst (λ t. IsAt src k (t ++ rest)) same here) in
    cc

entry_held : (es : Slots) (b c : List ℕ) → get_elem? (some b ∷ es) 0 ≡ some (some c) → b ≡ c
entry_held es b c h = cc

-- The slot behind an eight-byte constant holds nothing.
behind_entry :
    (src : List ℕ) (eight : Bool) (ss : Slots) (es : List RawEntry) (i : ℕ) (d : Content)
    → get_elem? ((if eight then none ∷ [] else []) ++ ss) i ≡ some (some (bytes_of d))
    → ((j : ℕ) → get_elem? ss j ≡ some (some (bytes_of d)) → Located src es j d)
    → Located src ((if eight then unusable ∷ [] else []) ++ es) i d
behind_entry src false ss es i d h next = next i h
behind_entry src true ss es zero d h next = cc
behind_entry src true ss es (suc i) d h next = next i h

located :
    (major : ℕ) (src : List ℕ) (cs : List Content) (k i : ℕ) (d : Content) (rest : List ℕ)
    → 45 ≤ major
    → All (IsSound major) cs
    → IsSound major d
    → IsAt src k (body_of cs ++ rest)
    → get_elem? (slots_of cs) i ≡ some (some (bytes_of d))
    → Located src (entries_of k cs) i d
located major src [] k i d rest old good gd here h = cc
located major src (c ∷ cs) k zero d rest old (good, goods) gd here h =
    let at_c = subst (λ t. IsAt src k t) (append_assoc (bytes_of c) (body_of cs) rest) here in
    let same =
      entry_held ((if is_eight c then none ∷ [] else []) ++ slots_of cs) (bytes_of c) (bytes_of d)
        h in
    (
      k,
      body_of cs ++ rest,
      ap some (same_entry major src k c d (body_of cs ++ rest) old good gd same at_c),
      subst (λ t. IsAt src k (t ++ (body_of cs ++ rest))) same at_c,
    )
located major src (c ∷ cs) k (suc i) d rest old (good, goods) gd here h =
    let at_c = subst (λ t. IsAt src k t) (append_assoc (bytes_of c) (body_of cs) rest) here in
    let k' = k + length (bytes_of c) in
    let behind =
      IsAt-skip src k (length (bytes_of c)) (bytes_of c) (body_of cs ++ rest) refl at_c in
    behind_entry src (is_eight c) (slots_of cs) (entries_of k' cs) i d h
      λ j found. located major src cs k' j d rest old goods gd behind found

in_slots :
    (major : ℕ) (src : List ℕ) (k : ℕ) (rest : List ℕ) (cs : List Content)
    → 45 ≤ major
    → All (IsSound major) cs
    → (i : ℕ) (d : Content) → IsAt src k (body_of cs ++ rest)
    → IsSound major d
    → get_elem? (none ∷ slots_of cs) i ≡ some (some (bytes_of d))
    → (i ≢ 0) × Located src (unusable ∷ entries_of k cs) i d
in_slots major src k rest cs old goods zero d here good h = cc
in_slots major src k rest cs old goods (suc i) d here good h =
    (omega arith, located major src cs k i d rest old goods good here h)

-- The entries of the pool, from the slots of the builder.
pub entry_known :
    (major : ℕ) (p : PoolBuilder) (src : List ℕ) (k : ℕ) (rest : List ℕ) (v : IsSpelled major p)
    (i : ℕ) (d : Content)
    → 45 ≤ major
    → IsAt src k (body_of v.contents ++ rest)
    → IsSound major d
    → Holds p.slots i (bytes_of d)
    → (i ≢ 0) × Located src (pool_at src k v.contents).entries i d
entry_known major p src k rest v i d old here good h =
    in_slots major src k rest v.contents old v.sound i d here good
      (ap (λ (s : Slots). get_elem? s i) (sym v.spelled) ∙ h)
