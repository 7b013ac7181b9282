-- ===== src/Classfile/Code/Limits.antt =====
-- classfile/codewriter.go: the bounds on max_stack and max_locals, for every closure.
use mocha.Prelude.{
  List, arith, if◌then◌else◌, ltb, ltb→lt, none, not, refl, set, some, ℕ, ◌<◌, ◌==◌, ◌≡◌, ◌≤◌,
}
use mocha.Classfile.Code.{
  Branch, CodeWriter, HandlerRec, Label, M, fail, handler_depth, label_at, terminate, write_u1,
  write_u2, write_u4,
}
use mocha.Classfile.Code.Branches.{
  handler_stack, record_branch, record_handler, record_switch, try_catch,
}
use mocha.Classfile.Code.Calls.{Steps, start_writer}
use mocha.Classfile.Code.Fits.{
  Fits, Inv, fail-Inv, if-Inv, mark-Keeps, new_label-Keeps, note_depth-Keeps, pop-Keeps, push-Keeps,
  same_labels, set_label, use_local-Keeps,
}
use mocha.Classfile.Code.Kept.{Keeps, LabelRules, Rules}
use mocha.Classfile.Code.Kept.Branches.{branch-Keeps}
use mocha.Classfile.Code.Kept.Runs.{Steps-Inv}
use mocha.Classfile.Pool.{PoolBuilder}
use mocha.Jvm.Desc.{DescType}
use mocha.Classfile.Code.Kept

-- What changes neither the depth nor the labels.
abbrev unmoved :
    (c d : CodeWriter)
    → d.labels ≡ c.labels
    → c.max_stack ≡ d.max_stack
    → d.depth ≡ c.depth
    → d.max_locals ≡ c.max_locals
    → Fits c
    → Fits d
unmoved c d e e1 e2 e3 fits =
    same_labels c d e (omega (arith, e1)) (omega (arith, e1, e2, fits.depth_ok))
      (omega (arith, e1, fits.stack_ok)) (omega (arith, e3, fits.locals_ok)) fits

abbrev within : Rules
within = record {
  Inv = Inv;
  failing = λ e c inv. fail-Inv e c;
  writing_u1 = λ v c inv h. unmoved c (write_u1 v c) refl refl refl refl (inv h);
  writing_u2 = λ v c inv h. unmoved c (write_u2 v c) refl refl refl refl (inv h);
  writing_u4 = λ v c inv h. unmoved c (write_u4 v c) refl refl refl refl (inv h);
  ending = λ c inv h. unmoved c (terminate c) refl refl refl refl (inv h);
  pushing = push-Keeps;
  popping = pop-Keeps;
  using = use_local-Keeps;
  noting = note_depth-Keeps;
  pooling = λ p c inv h. unmoved c (record c { p = p }) refl refl refl refl (inv h);
  naming = λ ls c inv h. unmoved c (record c { locals = ls }) refl refl refl refl (inv h);
  numbering = λ ls c inv h. unmoved c (record c { lines = ls }) refl refl refl refl (inv h);
  switching = λ s c inv h. unmoved c (record_switch s c) refl refl refl refl (inv h);
}

record_branch-Within : (b : Branch) → Kept.Keeps within (record_branch b)
record_branch-Within b c inv h = unmoved c (record_branch b c) refl refl refl refl (inv h)

-- The stack is raised to one behind the new depth of the handler.
raise-Fits : (c : CodeWriter) → c.max_stack < 1 → Fits c → Fits (record c { max_stack = 1 })
raise-Fits c low fits =
    same_labels c (record c { max_stack = 1 }) refl (omega arith) (omega (arith, fits.depth_ok))
      (omega arith) fits.locals_ok fits

handler_stack-Keeps : Kept.Keeps within handler_stack
handler_stack-Keeps c inv =
    if-Inv (ltb c.max_stack 1) {c = record c { max_stack = 1 }}
      (λ b h. raise-Fits c (ltb→lt _ _ b) (inv h)) λ b. inv

abbrev entered : ℕ → M
entered l c = record c { labels = set c.labels l (record (label_at c.labels l) { depth = some 1 }) }

entered-Inv : (l : ℕ) (c : CodeWriter) → Inv c → Inv (handler_stack (entered l c))
entered-Inv l c inv =
    let here : Label = record (label_at c.labels l) { depth = some 1 } in
    if-Inv (ltb c.max_stack 1) {c = record (entered l c) { max_stack = 1 }} {d = entered l c}
      (λ b h.
        set_label (record c { max_stack = 1 }) (record (entered l c) { max_stack = 1 }) l here refl
          (λ n e. ground arith) (omega (arith, ltb→lt _ _ b, (inv h).depth_ok)) refl refl
          (raise-Fits c (ltb→lt _ _ b) (inv h)))
      λ b h.
        set_label c (entered l c) l here refl (λ n e. ground arith) (inv h).depth_ok refl refl
          (inv h)

try_catch-Keeps : (h : HandlerRec) → Kept.Keeps within (try_catch h)
unfolding try_catch
try_catch-Keeps x c0 inv0 =
    let c : CodeWriter = record_handler x c0 in
    let inv : Inv c = λ h. unmoved c0 c refl refl refl refl (inv0 h) in
    elim (label_at c.labels x.handler).depth
      as (λ o. Inv (
        handler_stack (elim o [
          | none ↦ entered x.handler c
          | some n ↦ if not (n == 1) then fail handler_depth c else c
        ]))) [
          | none ↦ entered-Inv x.handler c inv
          | some n ↦ handler_stack-Keeps _ (if-Inv (not (n == 1)) (λ b. fail-Inv _ c) λ b. inv)
        ]

-- The bounds are kept by whatever a closure does.
abbrev fits_rules : LabelRules
fits_rules = record {
  rules = within;
  branching = branch-Keeps within record_branch-Within;
  handling = try_catch-Keeps;
  marking = mark-Keeps;
  labelling = new_label-Keeps;
}

-- Whatever methods a closure calls, in whatever order, if the writer it was given had at most 65535
-- slots of arguments and no error is noted at the end, then the operand stack is no deeper than
-- max_stack, max_stack and max_locals fit in 16 bits, and the depth recorded of every label is within
-- max_stack.
pub Steps-Fits :
    (p : PoolBuilder) (t : DescType) (major : ℕ) (widen : List ℕ) (pass args : ℕ) (d : CodeWriter)
    → args ≤ 65535
    → Steps (start_writer p t major widen pass args) d
    → d.err ≡ none
    → Fits d
unfolding label_at
Steps-Fits p t major widen pass args d few run = Steps-Inv fits_rules run λ h. record {
  depth_ok = omega arith;
  stack_ok = omega arith;
  locals_ok = few;
  labels_ok = λ l n e. cc;
}
