-- ===== src/Analyzer/Flow/Tests.antt =====
-- Runs of the bit sets, and the theorems at concrete histories.
use mocha.Prelude.{[], false, refl, true, ℕ, ◌&&◌, ◌↔◌, ◌∷◌, ◌≡◌}
use mocha.Analyzer.Flow.{has, new_bits, or_words, pos, set_bit, state_equal}
use mocha.Analyzer.Flow.Held.{Holds}
use mocha.Analyzer.Flow.History.{
  History, decided, fresh, is_assigned, is_unassigned, joined, run, run_refines, state_equal_iff,
  written,
}

or_short : or_words [] (5 ∷ []) ≡ 5 ∷ []
or_short = refl

grows : set_bit (pos 64) (new_bits 3) ≡ record { w = 0 ∷ 1 ∷ [] }
unfolding set_bit new_bits
grows = refl

-- A blank final and a parameter; the first is written on one path of two.
abbrev one_path : History
one_path =
    joined (written (pos 0) (decided (fresh (true ∷ false ∷ [])))) (fresh (true ∷ false ∷ []))

abbrev both_paths : History
both_paths =
    joined (written (pos 0) (fresh (true ∷ false ∷ [])))
      (written (pos 0) (fresh (true ∷ false ∷ [])))

run_refines_example :
    Holds (run one_path) (is_assigned one_path) (is_unassigned one_path)
    × ((j : ℕ) → has (pos j) (run one_path).da && has (pos j) (run one_path).du ≡ false)
run_refines_example = run_refines one_path

state_equal_iff_example : (state_equal (run one_path) (run both_paths) ≡ true) ↔ (
    (j : ℕ)
    → (is_assigned one_path j ≡ is_assigned both_paths j)
      × (is_unassigned one_path j ≡ is_unassigned both_paths j))
state_equal_iff_example = state_equal_iff one_path both_paths
