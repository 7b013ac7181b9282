-- ===== src/Classfile/Code/Delta.antt =====
-- classfile/codewriter.go: `simpleDelta`, the stack effect of the opcodes without operands.
use mocha.Prelude.{Bool, List, Option, [], false, if◌then◌else◌, none, some, ℕ, ◌==◌, ◌||◌, ◌∷◌}

-- A call of `set` for each row: what is popped, what is pushed, and the opcodes.
abbrev pub delta_rows : List (ℕ × ℕ × List ℕ)
delta_rows =
    (0, 0, 0x00 ∷ [])
    ∷ (1, 0, 0xc2 ∷ 0xc3 ∷ [])
    ∷ (0, 1, 0x03 ∷ 0x04 ∷ 0x05 ∷ 0x06 ∷ 0x07 ∷ 0x08 ∷ 0x02 ∷ 0x0b ∷ 0x0c ∷ 0x0d ∷ 0x01 ∷ [])
    ∷ (0, 2, 0x09 ∷ 0x0a ∷ 0x0e ∷ 0x0f ∷ [])
    ∷ (
      2,
      1,
      0x2e ∷ 0x30 ∷ 0x32 ∷ 0x33 ∷ 0x34 ∷ 0x35 ∷ 0x60 ∷ 0x64 ∷ 0x68 ∷ 0x6c ∷ 0x70 ∷ 0x7e ∷ 0x80
          ∷ 0x82 ∷ 0x78 ∷ 0x7a ∷ 0x7c ∷ 0x62 ∷ 0x66 ∷ 0x6a ∷ 0x6e ∷ 0x72 ∷ [],
    )
    ∷ (2, 2, 0x2f ∷ 0x31 ∷ [])
    ∷ (
      4,
      2,
      0x61 ∷ 0x65 ∷ 0x69 ∷ 0x6d ∷ 0x71 ∷ 0x7f ∷ 0x81 ∷ 0x83 ∷ 0x63 ∷ 0x67 ∷ 0x6b ∷ 0x6f ∷ 0x73 ∷ [],
    )
    ∷ (3, 2, 0x79 ∷ 0x7b ∷ 0x7d ∷ [])
    ∷ (3, 0, 0x4f ∷ 0x51 ∷ 0x53 ∷ 0x54 ∷ 0x55 ∷ 0x56 ∷ [])
    ∷ (4, 0, 0x50 ∷ 0x52 ∷ [])
    ∷ (1, 1, 0x74 ∷ 0x76 ∷ 0x86 ∷ 0x8b ∷ 0x91 ∷ 0x92 ∷ 0x93 ∷ 0xbe ∷ [])
    ∷ (2, 2, 0x75 ∷ 0x77 ∷ 0x8a ∷ 0x8f ∷ [])
    ∷ (1, 2, 0x85 ∷ 0x87 ∷ 0x8c ∷ 0x8d ∷ [])
    ∷ (2, 1, 0x88 ∷ 0x89 ∷ 0x8e ∷ 0x90 ∷ [])
    ∷ (4, 1, 0x94 ∷ 0x97 ∷ 0x98 ∷ [])
    ∷ (2, 1, 0x95 ∷ 0x96 ∷ [])
    ∷ (1, 0, 0x57 ∷ 0xac ∷ 0xae ∷ 0xb0 ∷ [])
    ∷ (2, 0, 0x58 ∷ 0xad ∷ 0xaf ∷ [])
    ∷ (0, 0, 0xb1 ∷ [])
    ∷ (1, 0, 0xbf ∷ [])
    ∷ (1, 2, 0x59 ∷ [])
    ∷ (2, 3, 0x5a ∷ [])
    ∷ (3, 4, 0x5b ∷ [])
    ∷ (2, 4, 0x5c ∷ [])
    ∷ (3, 5, 0x5d ∷ [])
    ∷ (4, 6, 0x5e ∷ [])
    ∷ (2, 2, 0x5f ∷ [])
    ∷ []

abbrev pub member : ℕ → List ℕ → Bool
member o [] = false
member o (x ∷ xs) = o == x || member o xs

-- `none` is the pop of -1.
abbrev pub lookup_delta : ℕ → List (ℕ × ℕ × List ℕ) → Option (ℕ × ℕ)
lookup_delta o [] = none
lookup_delta o ((a, b, ops) ∷ rows) = if member o ops then some (a, b) else lookup_delta o rows

unfoldable pub simple_delta : ℕ → Option (ℕ × ℕ)
simple_delta o = lookup_delta o delta_rows
