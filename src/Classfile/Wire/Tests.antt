-- ===== src/Classfile/Wire/Tests.antt =====
-- Runs of the cursor and the sink, and the theorems at concrete inputs.
use mocha.Prelude.{List, [], arith, none, refl, some, ℕ, ◌++◌, ◌+◌, ◌<◌, ◌^◌, ◌∷◌, ◌≡◌, ◌≢◌, ◌⊎◌}
use mocha.Classfile.Wire.{
  Reader, attr, end_of_file, raw, read_bytes, read_u1, read_u2, read_u4, u1, u2, u4,
}
use mocha.Classfile.Wire.ReadBack.{after, at_end_of, attr_layout, read-write}
use mocha.Classfile.Wire.Sticky.{Refused, reads-Refused}

abbrev header : List ℕ
header = 0xCA ∷ 0xFE ∷ []

abbrev reader : ℕ → Reader
reader off = record { b = 0x12 ∷ 0x34 ∷ 0x56 ∷ []; off = off; err = none }

read_u2_runs : (read_u2 (reader 1)).0 ≡ 0x3456
unfolding read_u2
read_u2_runs = refl

read_u4_short : (read_u4 (reader 1)).1 ≡ record {
  b = 0x12 ∷ 0x34 ∷ 0x56 ∷ [];
  off = 1;
  err = some (record { off = 1; msg = end_of_file });
}
unfolding read_u4
read_u4_short = refl

attr_runs : attr 7 (u1 9) header ≡ 0xCA ∷ 0xFE ∷ 0 ∷ 7 ∷ 0 ∷ 0 ∷ 0 ∷ 1 ∷ 9 ∷ []
unfolding attr u1
attr_runs = refl

read-write_example :
    (9 < 2 ^ 8
      → read_u1 (at_end_of header (u1 9 header ++ [])) ≡ after 9 1 header (u1 9 header ++ []))
    × (9 < 2 ^ 16
        → read_u2 (at_end_of header (u2 9 header ++ [])) ≡ after 9 2 header (u2 9 header ++ []))
    × (9 < 2 ^ 32
        → read_u4 (at_end_of header (u4 9 header ++ [])) ≡ after 9 4 header (u4 9 header ++ []))
    × (read_bytes (some 2) (at_end_of header (raw (1 ∷ 2 ∷ []) header ++ []))
        ≡ after (1 ∷ 2 ∷ []) 2 header (raw (1 ∷ 2 ∷ []) header ++ []))
read-write_example = read-write 9 (1 ∷ 2 ∷ []) header []

attr_layout_example : attr 7 (λ w. w ++ (9 ∷ [])) header ≡ raw (9 ∷ []) (u4 1 (u2 7 header))
attr_layout_example = attr_layout 7 (λ w. w ++ (9 ∷ [])) header (9 ∷ []) (λ w. refl) (omega arith)

reads-Refused_example :
    (((reader 3).err ≢ none) ⊎ (3 < 3 + 1) → Refused 0 (reader 3) (read_u1 (reader 3)))
    × (((reader 3).err ≢ none) ⊎ (3 < 3 + 2) → Refused 0 (reader 3) (read_u2 (reader 3)))
    × (((reader 3).err ≢ none) ⊎ (3 < 3 + 4) → Refused 0 (reader 3) (read_u4 (reader 3)))
    × (((reader 3).err ≢ none) ⊎ (3 < 3 + 9)
        → Refused [] (reader 3) (read_bytes (some 9) (reader 3)))
    × Refused [] (reader 3) (read_bytes none (reader 3))
reads-Refused_example = reads-Refused (reader 3) 9
