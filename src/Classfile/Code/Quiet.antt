-- ===== src/Classfile/Code/Quiet.antt =====
-- classfile/codewriter.go: what no method of the writer takes back, whatever the closure does.
use mocha.Prelude.{
  Bool, List, Option, [], ap, append-nil, append_assoc, false, if◌then◌else◌, ltb, none, not, refl,
  set, some, sym, true, ℕ, ◌&&◌, ◌++◌, ◌+◌, ◌-◌, ◌==◌, ◌∙◌, ◌≡◌,
}
use mocha.Classfile.Code.{
  CodeError, CodeWriter, HandlerRec, Label, bad_slot, branch_depth, enter, fail, fall_in_depth,
  handler_depth, label_at, locals_limit, mark, note_depth, place, placed_twice, pop, push,
  stack_limit, stack_overflow, stack_underflow, terminate, too_many_locals, unreachable_label,
  use_local, write_u1, write_u2, write_u4,
}
use mocha.Classfile.Code.Branches.{handler_stack, record_handler, record_switch, try_catch}
use mocha.Classfile.Code.Kept.{Rules}
use mocha.Classfile.Wire.{u1, u2, u4}

-- From `c` to `d` bytes are only appended, no branch is recorded, and the first error stays.
pub record Quiet (c d : CodeWriter) : Type 0 where
  pub widen_eq : d.widen ≡ c.widen
  pub branches_eq : d.branches ≡ c.branches
  pub first : (e : CodeError) → c.err ≡ some e → d.err ≡ some e
  pub more : List ℕ
  pub appends : d.w ≡ c.w ++ more

pub Quiet-refl : (c : CodeWriter) → Quiet c c
Quiet-refl c = record {
  widen_eq = refl;
  branches_eq = refl;
  first = λ e h. h;
  more = [];
  appends = sym (append-nil c.w);
}

module _ (c0 : CodeWriter) where
  -- The same writer, but for what `Quiet` does not speak of.
  pub same :
      (c d : CodeWriter)
      → d.widen ≡ c.widen
      → d.branches ≡ c.branches
      → d.err ≡ c.err
      → d.w ≡ c.w
      → Quiet c0 c
      → Quiet c0 d
  same c d widens branches errors bytes quiet = record {
    widen_eq = widens ∙ quiet.widen_eq;
    branches_eq = branches ∙ quiet.branches_eq;
    first = λ e h. errors ∙ quiet.first e h;
    more = quiet.more;
    appends = bytes ∙ quiet.appends;
  }

  written : (bs : List ℕ) (c : CodeWriter) → Quiet c0 c → Quiet c0 (record c { w = c.w ++ bs })
  written bs c quiet = record {
    widen_eq = quiet.widen_eq;
    branches_eq = quiet.branches_eq;
    first = quiet.first;
    more = quiet.more ++ bs;
    appends = ap (λ (w : List ℕ). w ++ bs) quiet.appends ∙ append_assoc c0.w quiet.more bs;
  }

  pub fail-Quiet : (e : CodeError) (c : CodeWriter) → Quiet c0 c → Quiet c0 (fail e c)
  unfolding fail
  fail-Quiet e c quiet =
      elim c.err
          as (λ o.
            c.err ≡ o → Quiet c0 (elim o [ none ↦ record c { err = some e } | some x ↦ c ])) [
              | none ↦ λ clean. record {
                widen_eq = quiet.widen_eq;
                branches_eq = quiet.branches_eq;
                first = λ x h. cc (quiet.first x h, clean);
                more = quiet.more;
                appends = quiet.appends;
              }
              | some x ↦ λ failed. quiet
            ]
        refl

  if-Quiet : (b : Bool) (c d : CodeWriter) → Quiet c0 c → Quiet c0 d → Quiet c0 (if b then c else d)
  if-Quiet true c d p q = p
  if-Quiet false c d p q = q

  pub push-Quiet : (n : ℕ) (c : CodeWriter) → Quiet c0 c → Quiet c0 (push n c)
  unfolding push
  push-Quiet n c q =
      let moved : CodeWriter = record c { depth = c.depth + n } in
      let q' : Quiet c0 moved = same c moved refl refl refl refl q in
      if-Quiet (ltb c.max_stack (c.depth + n)) _ moved
        (if-Quiet (ltb stack_limit (c.depth + n)) _ _ (fail-Quiet stack_overflow moved q')
          (same c (record moved { max_stack = c.depth + n }) refl refl refl refl q))
        q'

  pub pop-Quiet : (n : ℕ) (c : CodeWriter) → Quiet c0 c → Quiet c0 (pop n c)
  unfolding pop
  pop-Quiet n c q =
      if-Quiet (ltb c.depth n) _ _
        (same (fail stack_underflow c) (record (fail stack_underflow c) { depth = 0 }) refl refl
          refl refl (fail-Quiet stack_underflow c q))
        (same c (record c { depth = c.depth - n }) refl refl refl refl q)

  pub use_local-Quiet :
      (slot width : ℕ) (c : CodeWriter) → Quiet c0 c → Quiet c0 (use_local slot width c)
  unfolding use_local
  use_local-Quiet slot width c q = if-Quiet (ltb locals_limit slot) _ _ (fail-Quiet bad_slot c q) (
      if-Quiet (ltb locals_limit (slot + width)) _ _ (fail-Quiet too_many_locals c q) (
        if-Quiet (ltb c.max_locals (slot + width)) _ c
          (same c (record c { max_locals = slot + width }) refl refl refl refl q) q))

  labelled : (ls : List Label) (c : CodeWriter) → Quiet c0 c → Quiet c0 (record c { labels = ls })
  labelled ls c q = same c (record c { labels = ls }) refl refl refl refl q

  pub note_depth-Quiet : (l : ℕ) (c : CodeWriter) → Quiet c0 c → Quiet c0 (note_depth l c)
  unfolding note_depth
  note_depth-Quiet l c q =
      elim (label_at c.labels l).depth
        as (λ o. Quiet c0 (elim o [
          | none ↦ record c {
            labels = set c.labels l (record (label_at c.labels l) { depth = some c.depth });
          }
          | some n ↦ if not (n == c.depth) then fail branch_depth c else c
        ])) [
          | none ↦ labelled _ c q
          | some n ↦ if-Quiet (not (n == c.depth)) _ c (fail-Quiet branch_depth c q) q
        ]

  enter-Quiet : (l : ℕ) (o : Option ℕ) (c : CodeWriter) → Quiet c0 c → Quiet c0 (enter l o c)
  unfolding enter
  enter-Quiet l (some n) c q =
      if-Quiet (c.reachable && not (c.depth == n)) _ _ (fail-Quiet fall_in_depth c q)
        (same c (record c { depth = n; reachable = true }) refl refl refl refl q)
  enter-Quiet l none c q =
      if-Quiet c.reachable _ _ (same c _ refl refl refl refl q) (fail-Quiet unreachable_label c q)

  pub mark-Quiet : (l : ℕ) (c : CodeWriter) → Quiet c0 c → Quiet c0 (mark l c)
  unfolding mark
  mark-Quiet l c q =
      elim (label_at c.labels l).pc
        as (λ o. Quiet c0 (elim o [
          | some n ↦ fail placed_twice c
          | none ↦ enter l (label_at c.labels l).depth (place l c)
        ])) [
          | some n ↦ fail-Quiet placed_twice c q
          | none ↦ enter-Quiet l _ (place l c) (labelled _ c q)
        ]

  pub try_catch-Quiet : (h : HandlerRec) (c : CodeWriter) → Quiet c0 c → Quiet c0 (try_catch h c)
  unfolding try_catch
  try_catch-Quiet h b q0 =
      let c : CodeWriter = record_handler h b in
      let q : Quiet c0 c = same b c refl refl refl refl q0 in
      let stack : (d : CodeWriter) → Quiet c0 d → Quiet c0 (handler_stack d) = λ d p.
        if-Quiet (ltb d.max_stack 1) _ d (same d (record d { max_stack = 1 }) refl refl refl refl p)
          p in
      elim (label_at c.labels h.handler).depth
        as (λ o. Quiet c0 (
          handler_stack (elim o [
            | none ↦ record c {
              labels =
                  set c.labels h.handler (record (label_at c.labels h.handler) { depth = some 1 });
            }
            | some n ↦ if not (n == 1) then fail handler_depth c else c
          ]))) [
            | none ↦ stack _ (labelled _ c q)
            | some n ↦ stack _ (if-Quiet (not (n == 1)) _ c (fail-Quiet handler_depth c q) q)
          ]

  pub write_u1-Quiet : (v : ℕ) (c : CodeWriter) → Quiet c0 c → Quiet c0 (write_u1 v c)
  unfolding u1
  write_u1-Quiet v c q = written _ c q

  pub write_u2-Quiet : (v : ℕ) (c : CodeWriter) → Quiet c0 c → Quiet c0 (write_u2 v c)
  unfolding u2
  write_u2-Quiet v c q = written _ c q

  pub write_u4-Quiet : (v : ℕ) (c : CodeWriter) → Quiet c0 c → Quiet c0 (write_u4 v c)
  unfolding u4
  write_u4-Quiet v c q = written _ c q

  abbrev pub quiet_rules : Rules
  quiet_rules = record {
    Inv = Quiet c0;
    failing = fail-Quiet;
    writing_u1 = write_u1-Quiet;
    writing_u2 = write_u2-Quiet;
    writing_u4 = write_u4-Quiet;
    ending = λ c q. same c (terminate c) refl refl refl refl q;
    pushing = push-Quiet;
    popping = pop-Quiet;
    using = use_local-Quiet;
    noting = note_depth-Quiet;
    pooling = λ p c q. same c (record c { p = p }) refl refl refl refl q;
    naming = λ ls c q. same c (record c { locals = ls }) refl refl refl refl q;
    numbering = λ ls c q. same c (record c { lines = ls }) refl refl refl refl q;
    switching = λ s c q. same c (record_switch s c) refl refl refl refl q;
  }
