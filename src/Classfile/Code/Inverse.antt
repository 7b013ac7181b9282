-- ===== src/Classfile/Code/Inverse.antt =====
-- classfile/codewriter.go: what a conditional branch tests, and the inverted test of its long form.
use mocha.Prelude.{Bool, arith, false, leb, ltb, not, refl, true, ℕ, ◌==◌, ◌≡◌}
use mocha.Classfile.Code.Branches.{
  Condition, acmp_eq, acmp_ne, condition_op, eq, ge, gt, icmp_eq, icmp_ge, icmp_gt, icmp_le,
  icmp_lt, icmp_ne, invert, le, lt, ne, non_null, null, order,
}

-- The Java virtual machine specification of the branches on `a`, or on `a` and `b`: an int is its
-- 32-bit pattern, whose order is `order`, and a reference is a number, 0 for null.
abbrev pub jumps : Condition → ℕ → ℕ → Bool
jumps eq a b = a == 0
jumps ne a b = not (a == 0)
jumps lt a b = ltb (order a) (order 0)
jumps ge a b = leb (order 0) (order a)
jumps gt a b = ltb (order 0) (order a)
jumps le a b = leb (order a) (order 0)
jumps icmp_eq a b = a == b
jumps icmp_ne a b = not (a == b)
jumps icmp_lt a b = ltb (order a) (order b)
jumps icmp_ge a b = leb (order b) (order a)
jumps icmp_gt a b = ltb (order b) (order a)
jumps icmp_le a b = leb (order a) (order b)
jumps acmp_eq a b = a == b
jumps acmp_ne a b = not (a == b)
jumps null a b = a == 0
jumps non_null a b = not (a == 0)

abbrev negated : Condition → Condition
negated eq = ne
negated ne = eq
negated lt = ge
negated ge = lt
negated gt = le
negated le = gt
negated icmp_eq = icmp_ne
negated icmp_ne = icmp_eq
negated icmp_lt = icmp_ge
negated icmp_ge = icmp_lt
negated icmp_gt = icmp_le
negated icmp_le = icmp_gt
negated acmp_eq = acmp_ne
negated acmp_ne = acmp_eq
negated null = non_null
negated non_null = null

leb-ltb : (a b : ℕ) → leb a b ≡ not (ltb b a)
leb-ltb a b = ground arith

ltb-leb : (a b : ℕ) → ltb a b ≡ not (leb b a)
ltb-leb a b = ground arith

double_not : (b : Bool) → b ≡ not (not b)
double_not true = refl
double_not false = refl

jumps-negated : (k : Condition) (a b : ℕ) → jumps (negated k) a b ≡ not (jumps k a b)
jumps-negated eq a b = refl
jumps-negated ne a b = double_not _
jumps-negated lt a b = leb-ltb _ _
jumps-negated ge a b = ltb-leb _ _
jumps-negated gt a b = leb-ltb _ _
jumps-negated le a b = ltb-leb _ _
jumps-negated icmp_eq a b = refl
jumps-negated icmp_ne a b = double_not _
jumps-negated icmp_lt a b = leb-ltb _ _
jumps-negated icmp_ge a b = ltb-leb _ _
jumps-negated icmp_gt a b = leb-ltb _ _
jumps-negated icmp_le a b = ltb-leb _ _
jumps-negated acmp_eq a b = refl
jumps-negated acmp_ne a b = double_not _
jumps-negated null a b = refl
jumps-negated non_null a b = double_not _

op-negated :
    (k : Condition) → condition_op (negated k) ≡ (invert (condition_op k).0, (condition_op k).1)
unfolding invert
op-negated eq = refl
op-negated ne = refl
op-negated lt = refl
op-negated ge = refl
op-negated gt = refl
op-negated le = refl
op-negated icmp_eq = refl
op-negated icmp_ne = refl
op-negated icmp_lt = refl
op-negated icmp_ge = refl
op-negated icmp_gt = refl
op-negated icmp_le = refl
op-negated acmp_eq = refl
op-negated acmp_ne = refl
op-negated null = refl
op-negated non_null = refl

invert-invert : (k : Condition) → invert (invert (condition_op k).0) ≡ (condition_op k).0
unfolding invert
invert-invert eq = refl
invert-invert ne = refl
invert-invert lt = refl
invert-invert ge = refl
invert-invert gt = refl
invert-invert le = refl
invert-invert icmp_eq = refl
invert-invert icmp_ne = refl
invert-invert icmp_lt = refl
invert-invert icmp_ge = refl
invert-invert icmp_gt = refl
invert-invert icmp_le = refl
invert-invert acmp_eq = refl
invert-invert acmp_ne = refl
invert-invert null = refl
invert-invert non_null = refl

abbrev pub Inverted : Condition → Type 0
Inverted k =
    (m : Condition) × (condition_op m ≡ (invert (condition_op k).0, (condition_op k).1))
    × ((a b : ℕ) → jumps m a b ≡ not (jumps k a b))
    × (invert (invert (condition_op k).0) ≡ (condition_op k).0)

-- For each of the sixteen conditional branches, the opcode that `invert` gives is that of a condition
-- which pops as much, and which jumps, on any operands, exactly when the given one does not; inverting
-- twice gives the opcode back.
pub invert_lem : (k : Condition) → Inverted k
invert_lem k = (negated k, op-negated k, jumps-negated k, invert-invert k)
