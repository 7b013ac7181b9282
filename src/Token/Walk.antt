-- ===== src/Token/Walk.antt =====
-- token/file.go: a position is the line and the column that one comes to by walking the bytes.
use mocha.Prelude.{
  Bool, Bool-cases, List, [], ap, arith, false, if◌then◌else◌, inl, inr, ltb, not, refl, suc, sym,
  true, zero, ℕ, ◌&&◌, ◌+◌, ◌-◌, ◌==◌, ◌||◌, ◌∙◌, ◌∷◌, ◌≡◌, ◌≤◌,
}
use mocha.Token.{Position, build_lines, cr, in_lines, lf, lines_from, search_first, start_at}

-- A line ends with LF, with CR, or with both in this order.
ends_line : ℕ → List ℕ → Bool
ends_line c [] = c == lf || c == cr
ends_line c (d ∷ raw) = c == lf || (c == cr && not (d == lf))

-- The line and the column after n bytes, from a line and a column.
pub walk : ℕ → List ℕ → ℕ → ℕ → ℕ × ℕ
walk zero raw line column = (line, column)
walk (suc n) [] line column = (line, column + suc n)
walk (suc n) (c ∷ raw) line column = elim (ends_line c raw) [
  | true ↦ walk n raw (line + 1) 1
  | false ↦ walk n raw line (column + 1)
]

-- The search through the table, line by line, from a line that starts at s.
locate : ℕ → ℕ → List ℕ → ℕ → ℕ × ℕ
locate off s [] line = (line, off - s + 1)
locate off s (l ∷ lines) line =
    if ltb off l then (line, off - s + 1) else locate off l lines (line + 1)

abbrev pub seen : Position → ℕ × ℕ
seen p = (p.line, p.column)

locate-table :
    (off s k : ℕ) (lines : List ℕ)
    → locate off s lines k ≡ (
      search_first (λ l. ltb off l) lines + k,
      off - start_at (search_first (λ l. ltb off l) lines) (s ∷ lines) + 1,
    )
unfolding locate
locate-table off s k [] = ap (λ (n : ℕ). (n, off - s + 1)) (omega arith)
locate-table off s k (l ∷ lines) = elim (Bool-cases (ltb off l)) [
  | inl before ↦ rw before (ap (λ (n : ℕ). (n, off - s + 1)) (omega arith))
  | inr behind ↦ rw behind (
      locate-table off l (k + 1) lines
      ∙ ap (λ (n : ℕ). (n, off - start_at (search_first (λ x. ltb off x) lines) (l ∷ lines) + 1))
          (omega arith))
]

-- A byte that is walked over, and that ends its line or not.
walk-step :
    (n c : ℕ) (raw : List ℕ) (line column : ℕ)
    → (ends_line c raw ≡ true → walk (suc n) (c ∷ raw) line column ≡ walk n raw (line + 1) 1)
      × (ends_line c raw ≡ false
          → walk (suc n) (c ∷ raw) line column ≡ walk n raw line (column + 1))
unfolding walk
walk-step n c raw line column = (λ e. rw (e, walk) refl, λ e. rw (e, walk) refl)

-- Where the offset lies before the line that may start next, it is in the line of s.
locate-before :
    (raw : List ℕ) (off s j k : ℕ) → off ≤ j → locate off s (lines_from j raw) k ≡ (k, off - s + 1)
unfolding locate lines_from
locate-before [] off s j k h = refl
locate-before (c ∷ []) off s j k h = ground arith
locate-before (c ∷ d ∷ raw) off s j k h =
    ground (arith, locate-before (d ∷ raw) off s (j + 1) k (omega arith))

module _ (raw : List ℕ) (i n s k c : ℕ) (low : s ≤ i)
    (ih : (s' k' : ℕ)
      → s' ≤ i + 1
      → locate (i + 1 + n) s' (lines_from (i + 1) raw) k' ≡ walk n raw k' (i + 1 - s' + 1)) where
  -- A line ends here.
  at_end :
      ends_line c raw ≡ true
      → locate (i + suc n) s ((i + 1) ∷ lines_from (i + 1) raw) k
        ≡ walk (suc n) (c ∷ raw) k (i - s + 1)
  unfolding locate
  at_end e =
      let behind : ltb (i + suc n) (i + 1) ≡ false = ground arith in
      let far : i + suc n ≡ i + 1 + n = omega arith in
      let one : i + 1 - (i + 1) + 1 ≡ 1 = omega arith in
      rw behind (
        ap (λ (o : ℕ). locate o (i + 1) (lines_from (i + 1) raw) (k + 1)) far
        ∙ ih (i + 1) (k + 1) (omega arith)
        ∙ ap (walk n raw (k + 1)) one
        ∙ sym ((walk-step n c raw k (i - s + 1)).0 e))

  -- The line goes on.
  within :
      ends_line c raw ≡ false
      → locate (i + suc n) s (lines_from (i + 1) raw) k ≡ walk (suc n) (c ∷ raw) k (i - s + 1)
  within e =
      let far : i + suc n ≡ i + 1 + n = omega arith in
      let next : i + 1 - s + 1 ≡ i - s + 1 + 1 = omega arith in
      ap (λ (o : ℕ). locate o s (lines_from (i + 1) raw) k) far
      ∙ ih s k (omega arith)
      ∙ ap (walk n raw k) next
      ∙ sym ((walk-step n c raw k (i - s + 1)).1 e)

-- The table at a byte that ends a line, at one that does not, and at CR before LF.
lines-end :
    (i c : ℕ) (raw : List ℕ)
    → ends_line c raw ≡ true
    → lines_from i (c ∷ raw) ≡ (i + 1) ∷ lines_from (i + 1) raw
unfolding lines_from ends_line
lines-end i c [] e = rw e refl
lines-end i c (d ∷ raw) e = by_tests (c == lf) (c == cr) (d == lf) e
  where
    by_tests :
        (x y z : Bool)
        → x || (y && not z) ≡ true
        → ◌≡◌ {A = List ℕ}
            (elim x [
              | true ↦ (i + 1) ∷ lines_from (i + 1) (d ∷ raw)
              | false ↦ elim y [
                | false ↦ lines_from (i + 1) (d ∷ raw)
                | true ↦ elim z [
                  | true ↦ (i + 2) ∷ lines_from (i + 2) raw
                  | false ↦ (i + 1) ∷ lines_from (i + 1) (d ∷ raw)
                ]
              ]
            ])
            ((i + 1) ∷ lines_from (i + 1) (d ∷ raw))
    by_tests true y z e = refl
    by_tests false true false e = refl
    by_tests false true true e = absurd cc
    by_tests false false z e = absurd cc

lines-last : (i c : ℕ) → ends_line c [] ≡ false → lines_from i (c ∷ []) ≡ lines_from (i + 1) []
unfolding lines_from ends_line
lines-last i c e = rw e refl

lines-on :
    (i c d : ℕ) (raw : List ℕ)
    → (c == lf) ≡ false
    → (c == cr) ≡ false
    → lines_from i (c ∷ d ∷ raw) ≡ lines_from (i + 1) (d ∷ raw)
unfolding lines_from
lines-on i c d raw e f = rw (e, lines_from) (rw f refl)

lines-pair :
    (i c d : ℕ) (raw : List ℕ)
    → (c == lf) ≡ false
    → (c == cr) ≡ true
    → (d == lf) ≡ true
    → lines_from i (c ∷ d ∷ raw) ≡ (i + 2) ∷ lines_from (i + 2) raw
unfolding lines_from
lines-pair i c d raw e f g = rw (e, lines_from) (rw (f, g) refl)

lf_ends : (d : ℕ) (raw : List ℕ) → (d == lf) ≡ true → ends_line d raw ≡ true
unfolding ends_line
lf_ends d [] f = rw f refl
lf_ends d (x ∷ raw) f = rw f refl

-- CR and LF are walked over as one end of line.
pair_walked :
    (raw : List ℕ) (i n s k c d : ℕ)
    → s ≤ i
    → ends_line c (d ∷ raw) ≡ false
    → (d == lf) ≡ true
    → ((m s' k' : ℕ)
        → s' ≤ i + 2
        → locate (i + 2 + m) s' (lines_from (i + 2) raw) k' ≡ walk m raw k' (i + 2 - s' + 1))
    → locate (i + suc n) s ((i + 2) ∷ lines_from (i + 2) raw) k
      ≡ walk (suc n) (c ∷ d ∷ raw) k (i - s + 1)
unfolding locate walk
pair_walked raw i zero s k c d low e f ih =
    let before : ltb (i + 1) (i + 2) ≡ true = ground arith in
    let next : i + 1 - s + 1 ≡ i - s + 1 + 1 = omega arith in
    rw before (ap (λ (x : ℕ). (k, x)) next ∙ sym ((walk-step 0 c (d ∷ raw) k (i - s + 1)).1 e))
pair_walked raw i (suc m) s k c d low e f ih =
    let behind : ltb (i + suc (suc m)) (i + 2) ≡ false = ground arith in
    let far : i + suc (suc m) ≡ i + 2 + m = omega arith in
    let one : i + 2 - (i + 2) + 1 ≡ 1 = omega arith in
    rw behind (
      ap (λ (o : ℕ). locate o (i + 2) (lines_from (i + 2) raw) (k + 1)) far
      ∙ ih m (i + 2) (k + 1) (omega arith)
      ∙ ap (walk m raw (k + 1)) one
      ∙ sym ((walk-step m d raw k (i - s + 1 + 1)).0 (lf_ends d raw f))
      ∙ sym ((walk-step (suc m) c (d ∷ raw) k (i - s + 1)).1 e))

locate-walk :
    (raw : List ℕ) (n i s k : ℕ)
    → s ≤ i
    → locate (i + n) s (lines_from i raw) k ≡ walk n raw k (i - s + 1)
unfolding locate lines_from walk ends_line
locate-walk raw zero i s k h =
    let here : i + 0 ≡ i = omega arith in
    ap (λ (o : ℕ). locate o s (lines_from i raw) k) here ∙ locate-before raw i s i k (omega arith)
locate-walk [] (suc n) i s k h = ap (λ (x : ℕ). (k, x)) (omega arith)
locate-walk (c ∷ []) (suc n) i s k h = elim (Bool-cases (ends_line c [])) [
  | inl e ↦
      ap (λ (ls : List ℕ). locate (i + suc n) s ls k) (lines-end i c [] e)
      ∙ at_end [] i n s k c h (λ s' k' g. locate-walk [] n (i + 1) s' k' g) e
  | inr e ↦
      ap (λ (ls : List ℕ). locate (i + suc n) s ls k) (lines-last i c e)
      ∙ within [] i n s k c h (λ s' k' g. locate-walk [] n (i + 1) s' k' g) e
]
locate-walk (c ∷ d ∷ raw) (suc n) i s k h = elim (Bool-cases (ends_line c (d ∷ raw))) [
  | inl e ↦
      ap (λ (ls : List ℕ). locate (i + suc n) s ls k) (lines-end i c (d ∷ raw) e)
      ∙ at_end (d ∷ raw) i n s k c h (λ s' k' g. locate-walk (d ∷ raw) n (i + 1) s' k' g) e
  | inr e ↦ elim (Bool-cases (c == cr)) [
    | inl f ↦
        ap (λ (ls : List ℕ). locate (i + suc n) s ls k)
          (lines-pair i c d raw (ground arith) f (ground arith))
        ∙ pair_walked raw i n s k c d h e (ground arith)
            (λ m s' k' g. locate-walk raw m (i + 2) s' k' g)
    | inr f ↦
        ap (λ (ls : List ℕ). locate (i + suc n) s ls k) (lines-on i c d raw (ground arith) f)
        ∙ within (d ∷ raw) i n s k c h (λ s' k' g. locate-walk (d ∷ raw) n (i + 1) s' k' g) e
  ]
]

-- The position of an offset is the line and the column that one comes to by walking that many bytes from
-- the first line and column, where LF, CR, and CR with LF each end a line, and a CR before LF is still in
-- its line; beyond the last byte the column goes on.
pub in_lines-walk :
    (raw : List ℕ) (off : ℕ)
    → (seen (in_lines (build_lines raw) off) ≡ walk off raw 1 1)
      × ((in_lines (build_lines raw) off).offset ≡ off)
unfolding in_lines build_lines
in_lines-walk raw off =
    let lines = lines_from 0 raw in
    let first : ltb off 0 ≡ false = ground arith in
    let index : suc (search_first (λ l. ltb off l) lines) - 1
        ≡ search_first (λ l. ltb off l) lines =
      omega arith in
    let far : off ≡ 0 + off = omega arith in
    (
      rw first (
          ap (λ (i : ℕ). (i + 1, off - start_at i (0 ∷ lines) + 1)) index
          ∙ sym (locate-table off 0 1 lines)
          ∙ ap (λ (o : ℕ). locate o 0 lines 1) far
          ∙ locate-walk raw off 0 0 1 (omega arith)
          ∙ ap (walk off raw 1) (omega arith)),
      refl,
    )
