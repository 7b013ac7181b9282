-- ===== src/Analyzer/Flow/History.antt =====
-- analyzer/flow/bits.go: the states that writes and joins build, as two sets of variables.
use mocha.Prelude.{
  Bool, List, [], arith, false, not, refl, suc, sym, true, zero, ℕ, ◌&&◌, ◌||◌, ◌↔◌, ◌∙◌, ◌∷◌, ◌≡◌,
}
use mocha.Analyzer.Flow.{
  State, assign, has, join, merge, new_state, pos, state_equal, unconditional, ℤ,
}
use mocha.Analyzer.Flow.Equal.{equal_iff}
use mocha.Analyzer.Flow.Held.{
  Holds, assign-Holds, is_blank, is_given, is_index, join-Holds, new_state-Holds,
}

-- How a state comes about: from the variables of a method, by a write, where two paths join, and behind a
-- condition that writes nothing.
pub data History : Type 0 where
  fresh : List Bool → History
  written : ℤ → History → History
  joined : History → History → History
  decided : History → History

unfoldable pub run : History → State
unfolding new_state assign join merge unconditional
run (fresh blanks) = new_state blanks
run (written i h) = assign i (run h)
run (joined g h) = join (run g) (run h)
run (decided h) = merge (unconditional (run h))

-- Definite assignment and unassignment of a variable, by the history.
unfoldable pub is_assigned : History → ℕ → Bool
is_assigned (fresh blanks) j = is_given blanks j
is_assigned (written i h) j = is_index i j || is_assigned h j
is_assigned (joined g h) j = is_assigned g j && is_assigned h j
is_assigned (decided h) j = is_assigned h j

unfoldable pub is_unassigned : History → ℕ → Bool
is_unassigned (fresh blanks) j = is_blank blanks j
is_unassigned (written i h) j = not (is_index i j) && is_unassigned h j
is_unassigned (joined g h) j = is_unassigned g j && is_unassigned h j
is_unassigned (decided h) j = is_unassigned h j

twice : (b : Bool) → b && b ≡ b
twice true = refl
twice false = refl

run-Holds : (h : History) → Holds (run h) (is_assigned h) (is_unassigned h)
unfolding run is_assigned is_unassigned
run-Holds (fresh blanks) = new_state-Holds blanks
run-Holds (written i h) = assign-Holds i (run h) (is_assigned h) (is_unassigned h) (run-Holds h)
run-Holds (joined g h) =
    join-Holds (run g) (run h) (is_assigned g) (is_unassigned g) (is_assigned h) (is_unassigned h)
      (run-Holds g) (run-Holds h)
run-Holds (decided h) =
    let held = run-Holds h in
    let both =
      join-Holds (run h) (run h) (is_assigned h) (is_unassigned h) (is_assigned h) (is_unassigned h)
        held held in
    record {
      da_eq = λ j. both.da_eq j ∙ twice (is_assigned h j);
      du_eq = λ j. both.du_eq j ∙ twice (is_unassigned h j);
      words = both.words;
    }

given_apart : (blanks : List Bool) (j : ℕ) → is_given blanks j && is_blank blanks j ≡ false
given_apart [] j = refl
given_apart (true ∷ blanks) zero = refl
given_apart (false ∷ blanks) zero = refl
given_apart (b ∷ blanks) (suc j) = given_apart blanks j

apart : (h : History) (j : ℕ) → is_assigned h j && is_unassigned h j ≡ false
unfolding is_assigned is_unassigned
apart (fresh blanks) j = given_apart blanks j
apart (written i h) j = ground (arith, apart h j)
apart (joined g h) j = ground (arith, apart g j, apart h j)
apart (decided h) j = apart h j

-- Every state that writes and joins build from a fresh one holds exactly the variables that are definitely
-- assigned, and those that are definitely unassigned, by its history: a write adds its variable to the
-- first set and takes it from the second, a join keeps what both paths have, and a
-- condition that writes nothing changes nothing. A negative index
-- changes nothing. No variable is ever in both sets.
pub run_refines :
    (h : History)
    → Holds (run h) (is_assigned h) (is_unassigned h)
      × ((j : ℕ) → has (pos j) (run h).da && has (pos j) (run h).du ≡ false)
run_refines h =
    let held = run-Holds h in (held, λ j. ground (arith, held.da_eq j, held.du_eq j, apart h j))

-- The test that ends the fixpoint is exact: two states are equal for it just when their histories agree
-- on every variable.
pub state_equal_iff :
    (g h : History)
    → (state_equal (run g) (run h) ≡ true)
      ↔ ((j : ℕ) → (is_assigned g j ≡ is_assigned h j) × (is_unassigned g j ≡ is_unassigned h j))
unfolding state_equal
state_equal_iff g h =
    let left = run-Holds g in
    let right = run-Holds h in
    let da = equal_iff (run g).da (run h).da left.words.0 right.words.0 in
    let du = equal_iff (run g).du (run h).du left.words.1 right.words.1 in
    (
      λ e j. (
        sym (left.da_eq j) ∙ da.0 (ground arith) j ∙ right.da_eq j,
        sym (left.du_eq j) ∙ du.0 (ground arith) j ∙ right.du_eq j,
      ),
      λ same.
          let assigned = da.1 λ j. left.da_eq j ∙ (same j).0 ∙ sym (right.da_eq j) in
          let unassigned = du.1 λ j. left.du_eq j ∙ (same j).1 ∙ sym (right.du_eq j) in
          ground (arith, assigned, unassigned),
    )
