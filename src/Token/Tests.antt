-- ===== src/Token/Tests.antt =====
-- Runs of the line table, and its theorem at a concrete text.
use mocha.Prelude.{List, [], none, refl, some, ℕ, ◌∷◌, ◌≡◌}
use mocha.Token.{Edit, build_lines, in_lines, position}
use mocha.Token.Walk.{in_lines-walk, seen, walk}

-- The bytes a CR LF b LF CR c.
abbrev text : List ℕ
text = 97 ∷ 13 ∷ 10 ∷ 98 ∷ 10 ∷ 13 ∷ 99 ∷ []

line_table : build_lines text ≡ 0 ∷ 3 ∷ 5 ∷ 6 ∷ []
unfolding build_lines
line_table = refl

-- An escape of six bytes for the first character.
abbrev escape : Edit
escape = record { t_off = 0; t_len = 1; r_off = 0; r_len = 6 }

behind_escape :
    position (escape ∷ []) (0 ∷ []) 2 ≡ some (record { offset = 6; line = 1; column = 7 })
unfolding position
behind_escape = refl

no_position : position [] (0 ∷ []) 0 ≡ none
unfolding position
no_position = refl

in_lines-walk_example :
    (seen (in_lines (build_lines text) 6) ≡ walk 6 text 1 1)
    × ((in_lines (build_lines text) 6).offset ≡ 6)
in_lines-walk_example = in_lines-walk text 6
