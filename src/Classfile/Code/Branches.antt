-- ===== src/Classfile/Code/Branches.antt =====
-- classfile/codewriter.go: branches, switches, exception handlers and line numbers.
use mocha.Prelude.{
  Bool, List, [], false, if◌then◌else◌, length, ltb, none, not, set, some, suc, zero, ℕ, ◌%◌, ◌++◌,
  ◌+◌, ◌-◌, ◌==◌, ◌^◌, ◌||◌, ◌∷◌,
}
use mocha.Classfile.Code.{
  Branch, HandlerRec, M, SwitchRec, duplicate_match, emit_op, empty_range, fail, handler_depth,
  label_at, note_depth, pop, terminate, write_u1, write_u2, write_u4, wrong_targets, ◌>>◌,
}
use mocha.Classfile.Code.Delta.{member}
use mocha.Jvm.Op.{
  goto_op, goto_w, if_acmpeq, if_acmpne, if_icmpeq, if_icmpge, if_icmpgt, if_icmple, if_icmplt,
  if_icmpne, ifeq, ifge, ifgt, ifle, iflt, ifne, ifnonnull, ifnull, lookupswitch, tableswitch, wide,
}
use mocha.Jvm.Op

-- The map `invert`, pair by pair, in both directions.
abbrev pub inverse_pairs : List (ℕ × ℕ)
inverse_pairs =
    (Op.ifeq, Op.ifne)
    ∷ (Op.iflt, Op.ifge)
    ∷ (Op.ifgt, Op.ifle)
    ∷ (Op.if_icmpeq, Op.if_icmpne)
    ∷ (Op.if_icmplt, Op.if_icmpge)
    ∷ (Op.if_icmpgt, Op.if_icmple)
    ∷ (Op.if_acmpeq, Op.if_acmpne)
    ∷ (Op.ifnull, Op.ifnonnull)
    ∷ []

abbrev invert_in : ℕ → List (ℕ × ℕ) → ℕ
invert_in o [] = 0
invert_in o ((a, b) ∷ rows) = if o == a then b else if o == b then a else invert_in o rows

-- A missing key gives the zero opcode.
unfoldable pub invert : ℕ → ℕ
invert o = invert_in o inverse_pairs

abbrev pub branch_form : ℕ → Bool → M
branch_form o wide =
    if not wide
    then emit_op o >> write_u2 0
    else if o == Op.goto_op
    then emit_op Op.goto_w >> write_u4 0
    else emit_op (invert o) >> write_u2 8 >> write_u1 Op.goto_w >> write_u4 0

abbrev pub record_branch : Branch → M
record_branch b c = record c { branches = c.branches ++ (b ∷ []) }

unfoldable pub branch : ℕ → ℕ → ℕ → M
unfolding pop note_depth emit_op
branch o l pops c =
    let ord = length c.branches in
    let at = length c.w in
    let wide = member ord c.widen in
    (pop pops
        >> note_depth l
        >> branch_form o wide
        >> record_branch (record { ord = ord; op = o; label = l; at = at; wide = wide }))
      c

unfoldable pub goto_label : ℕ → M
unfolding branch
goto_label l = branch Op.goto_op l 0 >> terminate

pub data Condition : Type 0 where
  eq ne lt ge gt le icmp_eq icmp_ne icmp_lt icmp_ge icmp_gt icmp_le : Condition
  acmp_eq acmp_ne null non_null : Condition

-- The opcode of a conditional branch, and how much it pops.
abbrev pub condition_op : Condition → ℕ × ℕ
condition_op eq = (Op.ifeq, 1)
condition_op ne = (Op.ifne, 1)
condition_op lt = (Op.iflt, 1)
condition_op ge = (Op.ifge, 1)
condition_op gt = (Op.ifgt, 1)
condition_op le = (Op.ifle, 1)
condition_op icmp_eq = (Op.if_icmpeq, 2)
condition_op icmp_ne = (Op.if_icmpne, 2)
condition_op icmp_lt = (Op.if_icmplt, 2)
condition_op icmp_ge = (Op.if_icmpge, 2)
condition_op icmp_gt = (Op.if_icmpgt, 2)
condition_op icmp_le = (Op.if_icmple, 2)
condition_op acmp_eq = (Op.if_acmpeq, 2)
condition_op acmp_ne = (Op.if_acmpne, 2)
condition_op null = (Op.ifnull, 1)
condition_op non_null = (Op.ifnonnull, 1)

-- `IfEq` to `IfNonNull`
unfoldable pub if_branch : Condition → ℕ → M
unfolding branch
if_branch k l = branch (condition_op k).0 l (condition_op k).1

abbrev pub padding : ℕ → ℕ
padding at = (4 - (at + 1) % 4) % 4

abbrev pub times : ℕ → M → M
times zero f = λ c. c
times (suc n) f = f >> times n f

abbrev pub each {ℓ} : {A : Type ℓ} → (A → M) → List A → M
each f [] = λ c. c
each f (x ∷ xs) = f x >> each f xs

-- An `int32` pattern, moved so that its order is that of the numbers.
abbrev pub order : ℕ → ℕ
order v = (v + 2 ^ 31) % 2 ^ 32

abbrev pub record_switch : SwitchRec → M
record_switch s c = record c { switches = c.switches ++ (s ∷ []) }

-- What both switches do, before and after the operands that are their own.
abbrev pub switch_with : ℕ → ℕ → List ℕ → M → M
switch_with o def targets operands c =
    let at = length c.w in
    (pop 1
        >> note_depth def
        >> each note_depth targets
        >> emit_op o
        >> times (padding at) (write_u1 0)
        >> write_u4 0
        >> operands
        >> record_switch
            (record { op = o; at = at; pad = padding at; def = def; targets = targets })
        >> terminate)
      c

unfoldable pub table_switch : ℕ → ℕ → ℕ → List ℕ → M
unfolding pop note_depth emit_op fail
table_switch low high def targets =
    if ltb (order high) (order low)
    then fail empty_range
    else if not (order high - order low + 1 == length targets)
    then fail wrong_targets
    else switch_with Op.tableswitch def targets
        (write_u4 low >> write_u4 high >> each (λ t. write_u4 0) targets)

abbrev pub zip_with {ℓ} : {A : Type ℓ} → List A → List A → List (A × A)
zip_with [] ys = []
zip_with (x ∷ xs) [] = []
zip_with (x ∷ xs) (y ∷ ys) = (x, y) ∷ zip_with xs ys

abbrev insert_match : ℕ × ℕ → List (ℕ × ℕ) → List (ℕ × ℕ)
insert_match x [] = x ∷ []
insert_match x (y ∷ ys) = if ltb (order x.0) (order y.0) then x ∷ y ∷ ys else y ∷ insert_match x ys

-- The pairs in the order of `sort.Slice`; which of two equal matches comes first does not matter,
-- since they are refused.
unfoldable pub sort_matches : List (ℕ × ℕ) → List (ℕ × ℕ)
sort_matches [] = []
sort_matches (x ∷ xs) = insert_match x (sort_matches xs)

unfoldable pub has_duplicate : List (ℕ × ℕ) → Bool
has_duplicate [] = false
has_duplicate (x ∷ []) = false
has_duplicate (x ∷ y ∷ ys) = y.0 == x.0 || has_duplicate (y ∷ ys)

abbrev pub seconds : List (ℕ × ℕ) → List ℕ
seconds [] = []
seconds (x ∷ xs) = x.1 ∷ seconds xs

abbrev pub lookup_sorted : ℕ → List (ℕ × ℕ) → M
lookup_sorted def pairs =
    if has_duplicate pairs
    then fail duplicate_match
    else switch_with Op.lookupswitch def (seconds pairs)
        (write_u4 (length pairs) >> each (λ m. write_u4 m.0 >> write_u4 0) pairs)

unfoldable pub lookup_switch : ℕ → List ℕ → List ℕ → M
unfolding pop note_depth emit_op fail sort_matches has_duplicate
lookup_switch def matches targets =
    if not (length matches == length targets)
    then fail wrong_targets
    else lookup_sorted def (sort_matches (zip_with matches targets))

abbrev pub handler_entry : ℕ → M
handler_entry l c = elim (label_at c.labels l).depth [
  | none ↦ record c { labels = set c.labels l (record (label_at c.labels l) { depth = some 1 }) }
  | some n ↦ if not (n == 1) then fail handler_depth c else c
]

abbrev pub handler_stack : M
handler_stack c = if ltb c.max_stack 1 then record c { max_stack = 1 } else c

abbrev pub record_handler : HandlerRec → M
record_handler h c = record c { handlers = c.handlers ++ (h ∷ []) }

unfoldable pub try_catch : HandlerRec → M
unfolding fail label_at
try_catch h = record_handler h >> handler_entry h.handler >> handler_stack

unfoldable pub line : ℕ → M
line n c = record c {
  lines = c.lines ++ (record { start_pc = length c.w % 2 ^ 16; line = n % 2 ^ 16 } ∷ []);
}
