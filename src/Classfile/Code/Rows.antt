-- ===== src/Classfile/Code/Rows.antt =====
-- classfile/codewriter.go: `localRows`, the rows of the LocalVariableTable.
use mocha.Prelude.{
  All, Bool-cases, List, Option, [], arith, if◌then◌else◌, inl, inr, leb, none, refl, some, ℕ, ◌%◌,
  ◌+◌, ◌-◌, ◌<◌, ◌^◌, ◌∷◌, ◌≡◌, ◌≤◌,
}
use mocha.Classfile.Code.{CodeWriter, Label, LocalRec, fail, label_at, never_placed}

pub record LocalVariable : Type 0 where
  pub start_pc : ℕ
  pub length : ℕ
  pub name : List ℕ
  pub descriptor : List ℕ
  pub slot : ℕ

-- The row of a local from `a` to `b`, unless its range is empty.
abbrev keep_row : LocalRec → ℕ → ℕ → List LocalVariable → List LocalVariable
keep_row l a b rows =
    if leb b a
    then rows
    else record {
      start_pc = a % 2 ^ 16;
      length = (b - a) % 2 ^ 16;
      name = l.name;
      descriptor = l.descriptor;
      slot = l.slot % 2 ^ 16;
    }
      ∷ rows

abbrev row_between :
    LocalRec → Option ℕ → Option ℕ → Option (List LocalVariable) → Option (List LocalVariable)
row_between l (some a) (some b) (some rows) = some (keep_row l a b rows)
row_between _ _ _ _ = none

-- `none` if a local spans a label that was never placed.
unfoldable pub rows_of : List Label → List LocalRec → Option (List LocalVariable)
unfolding label_at
rows_of labels [] = some []
rows_of labels (l ∷ ls) =
    row_between l (label_at labels l.start).pc (label_at labels l.end).pc (rows_of labels ls)

abbrev pub rows_or_fail : Option (List LocalVariable) → CodeWriter → List LocalVariable × CodeWriter
rows_or_fail none c = ([], fail never_placed c)
rows_or_fail (some rows) c = (rows, c)

unfoldable pub local_rows : CodeWriter → List LocalVariable × CodeWriter
unfolding rows_of
local_rows c = rows_or_fail (rows_of c.labels c.locals) c

-- A range of the code array that is not empty.
abbrev pub IsWithin : ℕ → LocalVariable → Type 0
IsWithin n r = (0 < r.length) × (r.start_pc + r.length ≤ n)

keep_row-IsWithin :
    (n : ℕ) (l : LocalRec) (a b : ℕ) (rows : List LocalVariable)
    → n < 2 ^ 16
    → b ≤ n
    → All (IsWithin n) rows
    → All (IsWithin n) (keep_row l a b rows)
keep_row-IsWithin n l a b rows few below all = elim (Bool-cases (leb b a)) [
  | inl e ↦ rw e all
  | inr e ↦ rw e ((ground arith, ground arith), all)
]

abbrev AllWithin : ℕ → Option (List LocalVariable) → Type 0
AllWithin n none = Unit
AllWithin n (some rows) = All (IsWithin n) rows

row_between-AllWithin :
    (n : ℕ) (l : LocalRec) (a b : Option ℕ) (rest : Option (List LocalVariable))
    → n < 2 ^ 16
    → ((pc : ℕ) → b ≡ some pc → pc ≤ n)
    → AllWithin n rest
    → AllWithin n (row_between l a b rest)
row_between-AllWithin n l none b rest few below all = tt
row_between-AllWithin n l (some a) none rest few below all = tt
row_between-AllWithin n l (some a) (some b) none few below all = tt
row_between-AllWithin n l (some a) (some b) (some rows) few below all =
    keep_row-IsWithin n l a b rows few (below b refl) all

rows_of-AllWithin :
    (n : ℕ) (labels : List Label) (ls : List LocalRec)
    → n < 2 ^ 16
    → ((l pc : ℕ) → (label_at labels l).pc ≡ some pc → pc ≤ n)
    → AllWithin n (rows_of labels ls)
unfolding rows_of
rows_of-AllWithin n labels [] few placed = tt
rows_of-AllWithin n labels (l ∷ ls) few placed =
    row_between-AllWithin n l _ (label_at labels l.end).pc (rows_of labels ls) few (placed l.end)
      (rows_of-AllWithin n labels ls few placed)

rows_or_fail-IsWithin :
    (n : ℕ) (o : Option (List LocalVariable)) (c : CodeWriter)
    → AllWithin n o
    → All (IsWithin n) (rows_or_fail o c).0
rows_or_fail-IsWithin n none c all = tt
rows_or_fail-IsWithin n (some rows) c all = all

-- Once every placed label lies within a code array of `n` bytes, below 2 ^ 16, each row of the
-- LocalVariableTable covers at least one byte and ends within the array.
pub local_rows-IsWithin :
    (n : ℕ) (c : CodeWriter)
    → n < 2 ^ 16
    → ((l pc : ℕ) → (label_at c.labels l).pc ≡ some pc → pc ≤ n)
    → All (IsWithin n) (local_rows c).0
unfolding local_rows
local_rows-IsWithin n c few placed =
    rows_or_fail-IsWithin n (rows_of c.labels c.locals) c
      (rows_of-AllWithin n c.labels c.locals few placed)
