-- ===== src/Token.antt =====
-- token/file.go: the line table of a compilation unit, and the way from a position to a line and a column.
-- The name of the file, which is passed through, is left out.
pub mod Walk
mod Tests
use mocha.Prelude.{
  Bool, List, Option, [], false, get_elem?, if◌then◌else◌, ltb, none, some, suc, true, zero, ℕ, ◌+◌,
  ◌-◌, ◌==◌, ◌||◌, ◌∷◌,
}

abbrev pub lf : ℕ
lf = 10

abbrev pub cr : ℕ
cr = 13

-- The loop of `buildLines`: the starts of the lines behind offset i.
unfoldable pub lines_from : ℕ → List ℕ → List ℕ
lines_from i [] = []
lines_from i (c ∷ []) = if c == lf || c == cr then (i + 1) ∷ [] else []
lines_from i (c ∷ d ∷ raw) = elim (c == lf) [
  | true ↦ (i + 1) ∷ lines_from (i + 1) (d ∷ raw)
  | false ↦ elim (c == cr) [
    | false ↦ lines_from (i + 1) (d ∷ raw)
    | true ↦ elim (d == lf) [
      | true ↦ (i + 2) ∷ lines_from (i + 2) raw
      | false ↦ (i + 1) ∷ lines_from (i + 1) (d ∷ raw)
    ]
  ]
]

unfoldable pub build_lines : List ℕ → List ℕ
unfolding lines_from
build_lines raw = 0 ∷ lines_from 0 raw

-- `edit`
pub record Edit : Type 0 where
  pub t_off : ℕ
  pub t_len : ℕ
  pub r_off : ℕ
  pub r_len : ℕ

-- `sort.Search` on a table that the test splits: the first index where it holds, or the length.
abbrev pub search_first : {A : Type 0} → (A → Bool) → List A → ℕ
search_first f [] = 0
search_first f (x ∷ xs) = if f x then 0 else suc (search_first f xs)

-- The entry before that index.
abbrev pub entry_before : {A : Type 0} → ℕ → List A → Option A
entry_before zero xs = none
entry_before (suc i) xs = get_elem? xs i

unfoldable pub raw_start : List Edit → ℕ → ℕ
raw_start edits t = elim (entry_before (search_first (λ e. ltb t e.t_off) edits) edits) [
  | none ↦ t
  | some e ↦
      if ltb t (e.t_off + e.t_len) then e.r_off else e.r_off + e.r_len + (t - (e.t_off + e.t_len))
]

-- `Position` without the name.
pub record Position : Type 0 where
  pub offset : ℕ
  pub line : ℕ
  pub column : ℕ

-- `w[i]`, where the index is in range
abbrev pub start_at : ℕ → List ℕ → ℕ
start_at i [] = 0
start_at zero (x ∷ xs) = x
start_at (suc i) (x ∷ xs) = start_at i xs

-- The second half of `Position`, from a raw offset.
unfoldable pub in_lines : List ℕ → ℕ → Position
in_lines lines off =
    let i = search_first (λ l. ltb off l) lines - 1 in
    record { offset = off; line = i + 1; column = off - start_at i lines + 1 }

-- `File.Position` on a Pos, which is an offset and one; `none` for NoPos.
unfoldable pub position : List Edit → List ℕ → ℕ → Option Position
unfolding raw_start in_lines
position edits lines zero = none
position edits lines (suc t) = some (in_lines lines (raw_start edits t))
