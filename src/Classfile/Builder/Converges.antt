-- ===== src/Classfile/Builder/Converges.antt =====
-- classfile/builder.go: the passes of `Code` come to an end.
use mocha.Prelude.{
  All, Bool, Bool-cases, List, Option, Option-cases, Result, [], ap, arith, err, false, get_elem?,
  if◌then◌else◌, inl, inr, length, ltb, none, not, ok, refl, some, stuck, suc, sym, true, zero, ℕ,
  ◌+◌, ◌<◌, ◌==◌, ◌||◌, ◌∙◌, ◌∷◌, ◌≡◌, ◌≢◌, ◌≤◌,
}
use mocha.Classfile.Builder.{
  B, Builder, BuilderError, MethodBuilder, acc_static, bad_method, body_failed, code_too_long,
  empty_code, fail, falls_off, frame_too_large, has_flags, no_convergence, update_method,
}
use mocha.Classfile.Builder.Body.{
  code, finish, max_code_length, max_replays, passes, run_body, settle, store_code, with_code,
  with_signature,
}
use mocha.Classfile.Builder.OpenBranches.{Widened, open_count, open_count_lt, open_count_new}
use mocha.Classfile.Code.{Branch, CodeError, CodeWriter, Label, label_at, locals_limit, stack_limit}
use mocha.Classfile.Code.Calls.{Steps, start_writer}
use mocha.Classfile.Code.Delta.{member}
use mocha.Classfile.Code.Fits.{failed}
use mocha.Classfile.Code.Grows.{Numbered, Steps-Grows}
use mocha.Classfile.Code.Resolve.{resolve}
use mocha.Classfile.Code.Rows.{local_rows}
use mocha.Classfile.Code.Widening.{Placed, far_any, far_member, is_far_label, resolve-far_any}
use mocha.Classfile.Pool.{PoolBuilder}
use mocha.Jvm.Desc.{
  DescType, Method, Reason, arg_slots, check_arg_slots, max_arg_slots, parse_method, too_many_slots,
}
use mathlib.Core.Path.{subst}

-- The ordinal of a branch is below `n`, and it is long if the ordinal is widened.
abbrev IsNumbered : ℕ → List ℕ → Branch → Type 0
IsNumbered n widen br = (br.ord < n) × (br.wide ≡ member br.ord widen)

-- What a closure does from the writer of any pass: it calls methods of the writer, emits at most `n`
-- branches, and places the labels that they go to.
pub record Replays (n : ℕ) (body : CodeWriter → CodeWriter) : Type 0 where
  pub pass :
      (p : PoolBuilder) (t : DescType) (major : ℕ) (widen : List ℕ) (number args : ℕ)
      → let c : CodeWriter = start_writer p t major widen number args in
        Steps c (body c) × (length (body c).branches ≤ n) × Placed (body c).labels (body c).branches

numbers_below :
    (n k : ℕ) (widen : List ℕ) (brs : List Branch)
    → Numbered k widen brs
    → k + length brs ≤ n
    → All (IsNumbered n widen) brs
numbers_below n k widen [] good few = tt
numbers_below n k widen (br ∷ brs) (is_k, is_wide, good) few = (
  (omega (arith, is_k), is_wide ∙ ap (λ (o : ℕ). member o widen) (sym is_k)),
  numbers_below n (suc k) widen brs good (omega arith),
)

far_narrow : (labels : List Label) (br : Branch) → is_far_label labels br ≡ true → br.wide ≡ false
far_narrow labels br e = elim (Option-cases (label_at labels br.label).pc) [
  | inl none_yet ↦ cc (rw (none_yet, is_far_label) at e)
  | inr (pc, here) ↦ elim (Bool-cases br.wide) [
    | inl wide_form ↦ cc (rw (here, is_far_label, wide_form) at e)
    | inr short_form ↦ short_form
  ]
]

-- A short branch that is too far is among those that `resolve` widens.
far_one :
    (n : ℕ) (widen : List ℕ) (labels : List Label) (brs : List Branch)
    → All (IsNumbered n widen) brs
    → far_any labels brs ≡ true
    → (ord : ℕ) × (ord < n) × (member ord widen ≡ false) × (far_member labels ord brs ≡ true)
far_one n widen labels [] good far = cc
far_one n widen labels (br ∷ brs) ((small, is_wide), goods) far =
    elim (Bool-cases (is_far_label labels br)) [
      | inl e ↦ (
        br.ord,
        small,
        sym is_wide ∙ far_narrow labels br e,
        let self : (br.ord == br.ord) ≡ true = ground arith in rw (e, self) refl,
      )
      | inr e ↦
          let (ord, low, shut, found) = far_one n widen labels brs goods (rw e at far) in
          (ord, low, shut, rw (e, found) refl)
    ]

other-fail :
    (e : BuilderError) (b : Builder)
    → e ≢ no_convergence
    → b.err ≢ some no_convergence
    → (fail e b).err ≢ some no_convergence
unfolding fail
other-fail e b differs before =
    elim b.err
        as (λ o.
          o ≢ some no_convergence
          → let d : Builder = elim o [ none ↦ record b { err = some e } | some x ↦ b ] in
            d.err ≢ some no_convergence) [
              | none ↦ λ h same. differs (cc same)
              | some x ↦ λ h. before
            ]
      before

if-other :
    (c : Bool) (x y : Builder)
    → x.err ≢ some no_convergence
    → y.err ≢ some no_convergence
    → (if c then x else y).err ≢ some no_convergence
if-other true x y p q = p
if-other false x y p q = q

store_code-other :
    (j : ℕ) (m : MethodBuilder) (c : CodeWriter) (b : Builder)
    → b.err ≢ some no_convergence
    → (store_code j m c b).err ≢ some no_convergence
unfolding store_code
store_code-other j m c b before = elim (Option-cases (local_rows c).1.err) [
  | inl clean ↦ rw (clean, store_code) before
  | inr (e, failed) ↦
      rw (failed, store_code)
        (other-fail (body_failed e) (update_method j (with_code c (local_rows c).0 m) b)
          (λ same. cc same) before)
]

finish-other :
    (j : ℕ) (m : MethodBuilder) (c : CodeWriter) (b : Builder)
    → b.err ≢ some no_convergence
    → (finish j m c b).err ≢ some no_convergence
unfolding finish
finish-other j m c b before = elim (Option-cases c.err) [
  | inr (e, failed) ↦ rw (failed, finish) (other-fail (body_failed e) b (λ same. cc same) before)
  | inl clean ↦
      rw (clean, finish)
        (if-other (length c.w == 0) _ _ (other-fail empty_code b (λ same. cc same) before) (
          if-other (ltb max_code_length (length c.w)) _ _
            (other-fail code_too_long b (λ same. cc same) before)
            (if-other (ltb stack_limit c.max_stack || ltb locals_limit c.max_locals) _ _
              (other-fail frame_too_large b (λ same. cc same) before)
              (store_code-other j m c b before))))
]

settle-other :
    (o : Option CodeError) (reachable again : Bool) (replay end : B) (b : Builder)
    → b.err ≢ some no_convergence
    → (again ≡ true → (replay b).err ≢ some no_convergence)
    → (end b).err ≢ some no_convergence
    → (settle o reachable again replay end b).err ≢ some no_convergence
settle-other (some e) reachable again replay end b before next last =
    other-fail (body_failed e) b (λ same. cc same) before
settle-other none true again replay end b before next last =
    other-fail falls_off b (λ same. cc same) before
settle-other none false true replay end b before next last = next refl
settle-other none false false replay end b before next last = last

module _ (n : ℕ) (body : CodeWriter → CodeWriter) (replays : Replays n body) (sig : Method)
    (receiver : Bool) (j : ℕ) (m : MethodBuilder) where
  again-other :
      (left pass : ℕ) (widen : List ℕ) (b : Builder)
      → (resolve (run_body body sig receiver pass widen b)).0 ≡ true
      → open_count n widen < suc left
      → open_count n (resolve (run_body body sig receiver pass widen b)).1.widen < left
  again-other left pass widen b asked enough =
      let c = run_body body sig receiver pass widen b in
      let start = start_writer b.pool sig.ret b.version.major widen pass (arg_slots sig receiver) in
      let (run, few, placed) =
        replays.pass b.pool sig.ret b.version.major widen pass (arg_slots sig receiver) in
      let grows = Steps-Grows start c run in
      let kept : c.widen ≡ widen = grows.widen_eq in
      let numbered : All (IsNumbered n widen) c.branches =
        numbers_below n 0 widen c.branches
          (subst (λ bs. Numbered 0 widen bs) (sym grows.adds) grows.numbered)
          (omega (arith, few)) in
      let (asks, widens) = resolve-far_any c placed in
      let (ord, low, shut, far) = far_one n widen c.labels c.branches numbered (sym asks ∙ asked) in
      let wider : Widened widen (resolve c).1.widen = λ o h.
        widens o
        ∙ ap (λ (w : List ℕ). far_member c.labels o c.branches || member o w) kept
        ∙ ground (arith, h) in
      let fewer =
        open_count_lt n ord widen (resolve c).1.widen wider low shut (widens ord ∙ rw far refl) in
      omega (arith, fewer)

  passes-other :
      (left pass : ℕ) (widen : List ℕ) (b : Builder)
      → open_count n widen < left
      → b.err ≢ some no_convergence
      → (passes body sig receiver j m left pass widen b).err ≢ some no_convergence
  unfolding passes
  passes-other zero pass widen b enough before = absurd (omega arith)
  passes-other (suc left) pass widen b enough before =
      let c = run_body body sig receiver pass widen b in
      settle-other c.err c.reachable (resolve c).0
        (passes body sig receiver j m left (suc pass) (resolve c).1.widen)
        (finish j m (resolve c).1) (record b { pool = c.p }) before
        (λ asked.
          passes-other left (suc pass) (resolve c).1.widen (record b { pool = c.p })
            (again-other left pass widen b asked enough) before)
        (finish-other j m (resolve c).1 (record b { pool = c.p }) before)

with_signature-other :
    (run : Method → Bool → B) (receiver : Bool) (r : Result Reason Method) (b : Builder)
    → b.err ≢ some no_convergence
    → ((sig : Method) → (run sig receiver b).err ≢ some no_convergence)
    → (with_signature run receiver r b).err ≢ some no_convergence
unfolding check_arg_slots
with_signature-other run receiver (ok sig) b before runs =
    elim (Bool-cases (ltb max_arg_slots (arg_slots sig receiver))) [
      | inl over ↦
          rw (over, with_signature, check_arg_slots)
            (other-fail (bad_method too_many_slots) b (λ same. cc same) before)
      | inr fits ↦ rw (fits, with_signature, check_arg_slots) (runs sig)
    ]
with_signature-other run receiver (err e) b before runs =
    other-fail (bad_method e) b (λ same. cc same) before
with_signature-other run receiver stuck b before runs = before

-- A closure of at most nine branches never runs out of passes: if, from the writer of any pass and
-- whatever is widened, it calls methods of the writer, emits at most `n` branches, with `n` at most 9,
-- and places the labels that they go to, then `Code` on a builder without an error does not report
-- that widening failed to converge.
pub code-ne-no_convergence :
    (n : ℕ) (body : CodeWriter → CodeWriter) (j : ℕ) (b : Builder)
    → n ≤ 9
    → Replays n body
    → b.err ≡ none
    → (code body j b).err ≢ some no_convergence
unfolding code
code-ne-no_convergence n body j b few replays clean =
    let before : b.err ≢ some no_convergence = λ same. cc same in
    elim (Option-cases (get_elem? b.methods j)) [
      | inl missing ↦ rw (clean, code) (rw missing before)
      | inr (m, found) ↦
          rw (clean, code)
            (rw found (
              with_signature-other (λ sig receiver. passes body sig receiver j m max_replays 0 [])
                (not (has_flags m.flags acc_static)) (parse_method m.descriptor) b before
                λ sig.
                  passes-other n body replays sig (not (has_flags m.flags acc_static)) j m 10 0 [] b
                    (omega (arith, open_count_new n)) before))
    ]
