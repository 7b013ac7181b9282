-- ===== src/Classfile/Code/Constants.antt =====
-- classfile/codewriter.go: the constants that need no pool entry, and the opcodes without operands.
use mocha.Prelude.{
  Bool, Bool-cases, List, Option, [], ap, append_assoc, arith, false, if◌then◌else◌, inl, inr, leb,
  length, ltb, none, not, refl, some, sym, true, ℕ, ◌%◌, ◌&&◌, ◌*◌, ◌++◌, ◌+◌, ◌-◌, ◌<◌, ◌==◌,
  ◌>>>◌, ◌^◌, ◌||◌, ◌∙◌, ◌∷◌, ◌≡◌, ◌≤◌,
}
use mocha.Classfile.Code.{
  CodeError, CodeWriter, emit_op, fail, push, stack_limit, stack_overflow, write_u1, write_u2,
}
use mocha.Classfile.Code.Delta.{simple_delta}
use mocha.Classfile.Code.Instructions.{iconst, is_between}
use mocha.Classfile.Wire.{u1, u2}
use mocha.Jvm.Op.{is_plain}
use mocha.Prelude.Bits.{holds_below, holds_below_sound}
use mocha.Jvm.Op

-- The int that an instruction of the specification pushes: an opcode of its own, or a signed operand.
abbrev pub pushed_int : List ℕ → Option ℕ
pushed_int (o ∷ []) = if leb 2 o && leb o 8 then some ((2 ^ 32 + o - 3) % 2 ^ 32) else none
pushed_int (o ∷ b ∷ []) =
    if o == 0x10 then some (if ltb b 128 then b else 2 ^ 32 - 256 + b) else none
pushed_int (o ∷ b ∷ c ∷ []) =
    if o == 0x11
    then some (if ltb b 128 then b * 256 + c else 2 ^ 32 - 65536 + (b * 256 + c))
    else none
pushed_int _ = none

-- What is written, and that it stands for `v`.
abbrev pub Pushes : ℕ → CodeWriter → CodeWriter → Type 0
Pushes v c d = (bs : List ℕ) × (d.w ≡ c.w ++ bs) × (pushed_int bs ≡ some v) × (length bs ≤ 3)

fail-w : (e : CodeError) (c : CodeWriter) → (fail e c).w ≡ c.w
unfolding fail
fail-w e c =
    elim c.err
      as (λ o.
        let d : CodeWriter = elim o [ none ↦ record c { err = some e } | some x ↦ c ] in
        d.w ≡ c.w) [ none ↦ refl | some x ↦ refl ]

if-w : (b : Bool) {w : List ℕ} (c d : CodeWriter) → c.w ≡ w → d.w ≡ w → (if b then c else d).w ≡ w
if-w true c d p q = p
if-w false c d p q = q

push-w : (n : ℕ) (c : CodeWriter) → (push n c).w ≡ c.w
unfolding push
push-w n c =
    let moved : CodeWriter = record c { depth = c.depth + n } in
    let raised : CodeWriter = record moved { max_stack = c.depth + n } in
    if-w (ltb c.max_stack (c.depth + n)) _ moved
      (if-w (ltb stack_limit (c.depth + n)) (fail stack_overflow moved) raised
        (fail-w stack_overflow moved) refl)
      refl

emit_op-w : (o : ℕ) (c : CodeWriter) → c.reachable ≡ true → (emit_op o c).w ≡ c.w ++ (o % 256 ∷ [])
unfolding emit_op u1
emit_op-w o c live = rw (live, emit_op) refl

-- Where code is reachable, an int of at most 16 bits is pushed by at most three bytes, which stand for
-- that very int.
pub iconst-pushed_int :
    (v : ℕ) (c : CodeWriter)
    → v < 2 ^ 32
    → is_between 32 32768 32767 v ≡ true
    → c.reachable ≡ true
    → Pushes v c (iconst v c)
unfolding iconst u1 u2
iconst-pushed_int v c small range live = elim (Bool-cases (is_between 32 1 5 v)) [
  | inl a ↦
      let o = (3 + v) % 256 in
      rw a (o % 256 ∷ [], push-w 1 (emit_op o c) ∙ emit_op-w o c live, ground arith, omega arith)
  | inr a ↦ elim (Bool-cases (is_between 32 128 127 v)) [
    | inl b ↦
        rw (a, b)
          (
            0x10 ∷ v % 256 ∷ [],
            push-w 1 (write_u1 v (emit_op 0x10 c))
                ∙ ap (λ (w : List ℕ). w ++ (v % 256 ∷ [])) (emit_op-w 0x10 c live)
                ∙ append_assoc c.w (0x10 ∷ []) (v % 256 ∷ []),
            ground arith,
            omega arith,
          )
    | inr b ↦
        let low = v % 2 ^ 16 in
        rw (a, b, range)
          (
            0x11 ∷ (low >>> 8) % 256 ∷ low % 256 ∷ [],
            push-w 1 (write_u2 v (emit_op 0x11 c))
                ∙ ap (λ (w : List ℕ). w ++ ((low >>> 8) % 256 ∷ low % 256 ∷ []))
                    (emit_op-w 0x11 c live)
                ∙ append_assoc c.w (0x11 ∷ []) ((low >>> 8) % 256 ∷ low % 256 ∷ []),
            ground arith,
            omega arith,
          )
  ]
]

-- The opcodes that `Op` refuses although they have no operands are the loads and stores with the slot
-- in the opcode; and those it emits have no operands.
abbrev pub is_compact : ℕ → Bool
is_compact o = (leb 0x1A o && leb o 0x2D) || (leb 0x3B o && leb o 0x4E)

abbrev pub is_some : Option (ℕ × ℕ) → Bool
is_some none = false
is_some (some d) = true

abbrev same_bool : Bool → Bool → Bool
same_bool true b = b
same_bool false b = not b

abbrev delta_test : ℕ → Bool
delta_test o = same_bool (is_some (simple_delta o)) (Op.is_plain o && not (is_compact o))

all_deltas : holds_below 256 delta_test ≡ true
unfolding holds_below simple_delta
all_deltas = refl

same_bool_sound : (a b : Bool) → same_bool a b ≡ true → a ≡ b
same_bool_sound true true e = refl
same_bool_sound true false e = sym e
same_bool_sound false true e = e
same_bool_sound false false e = refl

-- For every byte, `Op` knows a stack effect exactly if the opcode has no operands and is none of the
-- loads and stores that name their slot in the opcode.
pub is_some-simple_delta :
    (o : ℕ) → o < 256 → is_some (simple_delta o) ≡ (Op.is_plain o && not (is_compact o))
is_some-simple_delta o h = same_bool_sound _ _ (holds_below_sound 256 delta_test all_deltas o h)
