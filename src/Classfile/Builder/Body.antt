-- ===== src/Classfile/Builder/Body.antt =====
-- classfile/builder.go: `MethodBuilder.Code`, on a closure that is a function of the writer.
use mocha.Prelude.{
  Bool, List, Option, Result, [], err, false, get_elem?, if◌then◌else◌, length, ltb, none, not, ok,
  some, stuck, suc, true, zero, ℕ, ◌%◌, ◌++◌, ◌==◌, ◌^◌, ◌||◌, ◌∷◌,
}
use mocha.Classfile.Builder.{
  B, Builder, EncodedHandler, MethodBuilder, acc_static, bad_method, body_failed, code_too_long,
  empty_code, fail, falls_off, frame_too_large, has_flags, no_convergence, update_method,
}
use mocha.Classfile.Code.{
  CodeError, CodeWriter, HandlerRec, Label, label_at, locals_limit, stack_limit,
}
use mocha.Classfile.Code.Calls.{start_writer}
use mocha.Classfile.Code.Resolve.{resolve}
use mocha.Classfile.Code.Rows.{LocalVariable, local_rows}
use mocha.Classfile.Pool.{M, PoolBuilder, intern_class}
use mocha.Jvm.Desc.{Method, Reason, arg_slots, check_arg_slots, parse_method}
use mocha.Classfile.Pool

abbrev pub max_replays : ℕ
max_replays = 10

abbrev pub max_code_length : ℕ
max_code_length = 65535

-- `uint16(l.pc)`; the offset of a label that was never placed is -1.
abbrev pub pc_of : List Label → ℕ → ℕ
pc_of labels l = elim (label_at labels l).pc [ none ↦ 65535 | some pc ↦ pc % 2 ^ 16 ]

abbrev pub catch_index : List ℕ → Pool.M
catch_index [] p = (0, p)
catch_index (x ∷ xs) p = intern_class (x ∷ xs) p

unfoldable pub encode_handlers :
    List Label → List HandlerRec → PoolBuilder → List EncodedHandler × PoolBuilder
unfolding label_at intern_class
encode_handlers labels [] p = ([], p)
encode_handlers labels (h ∷ hs) p =
    let (ct, q) = catch_index h.catch_type p in
    let (rest, r) = encode_handlers labels hs q in
    (
      record {
        start = pc_of labels h.start;
        end = pc_of labels h.end;
        handler = pc_of labels h.handler;
        catch_type = ct;
      }
          ∷ rest,
      r,
    )

abbrev pub with_code : CodeWriter → List LocalVariable → MethodBuilder → MethodBuilder
with_code c rows m = record m {
  code = c.w;
  max_stack = c.max_stack % 2 ^ 16;
  max_locals = c.max_locals % 2 ^ 16;
  lines = c.lines;
  locals = rows;
  has_code = true;
}

abbrev pub with_handlers : ℕ → MethodBuilder → Builder → List EncodedHandler × PoolBuilder → Builder
with_handlers j m b (hs, p) =
    update_method j (record m { handlers = m.handlers ++ hs }) (record b { pool = p })

-- The end of the last pass, once the code has been measured.
unfoldable pub store_code : ℕ → MethodBuilder → CodeWriter → B
unfolding local_rows encode_handlers fail
store_code j m c b =
    let (rows, d) = local_rows c in
    let n = with_code c rows m in
    elim d.err [
      | some e ↦ fail (body_failed e) (update_method j n b)
      | none ↦ with_handlers j n b (encode_handlers c.labels c.handlers b.pool)
    ]

unfoldable pub finish : ℕ → MethodBuilder → CodeWriter → B
unfolding store_code fail
finish j m c b = elim c.err [
  | some e ↦ fail (body_failed e) b
  | none ↦
      if length c.w == 0
      then fail empty_code b
      else if ltb max_code_length (length c.w)
      then fail code_too_long b
      else if ltb stack_limit c.max_stack || ltb locals_limit c.max_locals
      then fail frame_too_large b
      else store_code j m c b
]

-- What follows a run of the closure: an error, another pass, or the end.
abbrev pub settle : Option CodeError → Bool → Bool → B → B → B
settle (some e) reachable again replay end = fail (body_failed e)
settle none true again replay end = fail falls_off
settle none false true replay end = replay
settle none false false replay end = end

abbrev pub run_body : (CodeWriter → CodeWriter) → Method → Bool → ℕ → List ℕ → Builder → CodeWriter
run_body body sig receiver pass widen b =
    body (start_writer b.pool sig.ret b.version.major widen pass (arg_slots sig receiver))

module _ (body : CodeWriter → CodeWriter) (sig : Method) (receiver : Bool) (j : ℕ)
    (m : MethodBuilder) where
  -- The loop over the passes, of which `left` may still be made.
  unfoldable pub passes : ℕ → ℕ → List ℕ → B
  unfolding fail finish resolve arg_slots
  passes zero pass widen b = fail no_convergence b
  passes (suc left) pass widen b =
      let c = run_body body sig receiver pass widen b in
      let (again, d) = resolve c in
      settle c.err c.reachable again (passes left (suc pass) d.widen) (finish j m d)
        (record b { pool = c.p })

abbrev pub with_signature : (Method → Bool → B) → Bool → Result Reason Method → B
with_signature run receiver (ok sig) b = elim (check_arg_slots sig receiver) [
  | ok u ↦ run sig receiver b
  | err e ↦ fail (bad_method e) b
  | stuck ↦ b
]
with_signature run receiver (err e) b = fail (bad_method e) b
with_signature run receiver stuck b = b

-- `Code`, on the method of index `j`.
unfoldable pub code : (CodeWriter → CodeWriter) → ℕ → B
unfolding fail passes parse_method check_arg_slots
code body j b = elim b.err [
  | some e ↦ b
  | none ↦ elim (get_elem? b.methods j) [
    | none ↦ b
    | some m ↦
        with_signature (λ sig receiver. passes body sig receiver j m max_replays 0 [])
          (not (has_flags m.flags acc_static)) (parse_method m.descriptor) b
  ]
]
