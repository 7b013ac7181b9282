-- ===== src/Classfile/Builder/Sticks.antt =====
-- classfile/builder.go: no method takes back the first error, or sets a version that needs a stack map.
use mocha.Prelude.{
  Bool, Bool-cases, List, Option, Result, [], arith, bit_or, err, false, get_elem?, if◌then◌else◌,
  inl, inr, leb, length, ltb, none, not, ok, refl, some, stuck, suc, sym, true, zero, ℕ, ◌==◌, ◌||◌,
  ◌∙◌, ◌≡◌, ◌≢◌, ◌≤◌,
}
use mocha.Classfile.Builder.{
  B, Builder, BuilderError, MethodBuilder, acc_final, acc_static, add_field, add_method, bad_field,
  bad_method, below_minimum, body_failed, code_too_long, empty_code, fail, falls_off,
  frame_too_large, has_flags, no_convergence, not_static_final, preview_target, set_constant,
  set_version, stack_map_needed, unless_parsed, update_field, update_method,
}
use mocha.Classfile.Builder.Body.{
  code, encode_handlers, finish, max_code_length, max_replays, passes, run_body, settle, store_code,
  with_code, with_handlers, with_signature,
}
use mocha.Classfile.Code.{CodeError, CodeWriter, locals_limit, stack_limit}
use mocha.Classfile.Code.Resolve.{resolve}
use mocha.Classfile.Code.Rows.{local_rows}
use mocha.Classfile.Version.{Version}
use mocha.Jvm.Desc.{
  Method, Reason, arg_slots, check_arg_slots, max_arg_slots, parse_field, parse_method,
  too_many_slots,
}
use mathlib.Core.Path.{subst}

-- A version for which no stack map is needed, and no preview.
abbrev pub IsTarget : Version → Type 0
IsTarget v = (45 ≤ v.major) × (v.major ≤ 49) × (v.minor ≢ 65535)

-- The version stays a target, and the first error stays.
pub record Sticks (b c : Builder) : Type 0 where
  pub target : IsTarget b.version → IsTarget c.version
  pub first : (e : BuilderError) → b.err ≡ some e → c.err ≡ some e

pub same-Sticks : (b c : Builder) → c.version ≡ b.version → c.err ≡ b.err → Sticks b c
same-Sticks b c v e = record {
  target = λ t. subst (λ x. IsTarget x) (sym v) t;
  first = λ x h. e ∙ h;
}

pub Sticks-trans : (b c d : Builder) → Sticks b c → Sticks c d → Sticks b d
Sticks-trans b c d x y = record {
  target = λ t. y.target (x.target t);
  first = λ e h. y.first e (x.first e h);
}

fail-Sticks : (e : BuilderError) (b : Builder) → Sticks b (fail e b)
unfolding fail
fail-Sticks e b =
    elim b.err
        as (λ o.
          b.err ≡ o
          → let d : Builder = elim o [ none ↦ record b { err = some e } | some x ↦ b ] in
            Sticks b d) [
              | none ↦ λ clean. record { target = λ t. t; first = λ x h. cc (h, clean) }
              | some x ↦ λ bad. same-Sticks b b refl refl
            ]
      refl

if-Sticks :
    (t : Bool) (b c d : Builder)
    → (t ≡ true → Sticks b c)
    → (t ≡ false → Sticks b d)
    → Sticks b (if t then c else d)
if-Sticks true b c d x y = x refl
if-Sticks false b c d x y = y refl

pub set_version-Sticks : (v : Version) (b : Builder) → Sticks b (set_version v b)
unfolding set_version
set_version-Sticks v b =
    if-Sticks (leb 50 v.major) b _ _ (λ h. fail-Sticks stack_map_needed b)
      λ low.
        if-Sticks (ltb v.major 45) b _ _ (λ h. fail-Sticks below_minimum b)
          λ high.
            if-Sticks (v.minor == 65535) b _ _ (λ h. fail-Sticks preview_target b)
              λ final. record {
                target = λ t. (ground arith, ground arith, λ same. ground (arith, same, final));
                first = λ e h. h;
              }

unless_parsed-Sticks :
    {A : Type 0} (wrap : Reason → BuilderError) (r : Result Reason A) (b : Builder)
    → Sticks b (unless_parsed wrap r b)
unless_parsed-Sticks wrap (ok a) b = same-Sticks b b refl refl
unless_parsed-Sticks wrap (err e) b = fail-Sticks (wrap e) b
unless_parsed-Sticks wrap stuck b = same-Sticks b b refl refl

pub add_field-Sticks : (f : ℕ) (n d : List ℕ) (b : Builder) → Sticks b (add_field f n d b).1
unfolding add_field
add_field-Sticks f n d b =
    let c = unless_parsed bad_field (parse_field d) b in
    Sticks-trans b c _ (unless_parsed-Sticks bad_field (parse_field d) b)
      (same-Sticks c _ refl refl)

pub add_method-Sticks : (f : ℕ) (n d : List ℕ) (b : Builder) → Sticks b (add_method f n d b).1
unfolding add_method
add_method-Sticks f n d b =
    let c = unless_parsed bad_method (parse_method d) b in
    Sticks-trans b c _ (unless_parsed-Sticks bad_method (parse_method d) b)
      (same-Sticks c _ refl refl)

-- A change of one member, if it is there.
pub at_member :
    {A : Type 0} (o : Option A) (f : A → B) (b : Builder)
    → ((x : A) → Sticks b (f x b))
    → Sticks b (elim o [ none ↦ b | some x ↦ f x b ])
at_member none f b sticks = same-Sticks b b refl refl
at_member (some x) f b sticks = sticks x

pub set_constant-Sticks : (j idx : ℕ) (b : Builder) → Sticks b (set_constant j idx b)
unfolding set_constant
set_constant-Sticks j idx b =
    at_member (get_elem? b.fields j)
      (λ f c.
        if has_flags f.flags (bit_or acc_static acc_final)
        then update_field j (record f { constant = idx }) c
        else fail not_static_final c)
      b
      λ f.
        if-Sticks (has_flags f.flags (bit_or acc_static acc_final)) b _ _
          (λ h. same-Sticks b _ refl refl) (λ h. fail-Sticks not_static_final b)

store_code-Sticks :
    (j : ℕ) (m : MethodBuilder) (c : CodeWriter) (b : Builder) → Sticks b (store_code j m c b)
unfolding store_code
store_code-Sticks j m c b =
    let n = with_code c (local_rows c).0 m in
    elim (local_rows c).1.err
      as (λ o. Sticks b (elim o [
        | some e ↦ fail (body_failed e) (update_method j n b)
        | none ↦ with_handlers j n b (encode_handlers c.labels c.handlers b.pool)
      ])) [
        | some e ↦
            Sticks-trans b (update_method j n b) _ (same-Sticks b _ refl refl)
              (fail-Sticks (body_failed e) (update_method j n b))
        | none ↦ same-Sticks b _ refl refl
      ]

finish-Sticks :
    (j : ℕ) (m : MethodBuilder) (c : CodeWriter) (b : Builder) → Sticks b (finish j m c b)
unfolding finish
finish-Sticks j m c b =
    let end : Builder =
      if length c.w == 0
      then fail empty_code b
      else if ltb max_code_length (length c.w)
      then fail code_too_long b
      else if ltb stack_limit c.max_stack || ltb locals_limit c.max_locals
      then fail frame_too_large b
      else store_code j m c b in
    elim c.err as (λ o. Sticks b (elim o [ some e ↦ fail (body_failed e) b | none ↦ end ])) [
      | some e ↦ fail-Sticks (body_failed e) b
      | none ↦
          if-Sticks (length c.w == 0) b _ _ (λ h. fail-Sticks empty_code b)
            λ h1.
              if-Sticks (ltb max_code_length (length c.w)) b _ _ (λ h. fail-Sticks code_too_long b)
                λ h2.
                  if-Sticks (ltb stack_limit c.max_stack || ltb locals_limit c.max_locals) b _ _
                    (λ h. fail-Sticks frame_too_large b) (λ h. store_code-Sticks j m c b)
    ]

settle-Sticks :
    (o : Option CodeError) (reachable again : Bool) (replay end : B) (b : Builder)
    → Sticks b (replay b)
    → Sticks b (end b)
    → Sticks b (settle o reachable again replay end b)
settle-Sticks (some e) reachable again replay end b x y = fail-Sticks (body_failed e) b
settle-Sticks none true again replay end b x y = fail-Sticks falls_off b
settle-Sticks none false true replay end b x y = x
settle-Sticks none false false replay end b x y = y

module _ (body : CodeWriter → CodeWriter) (sig : Method) (receiver : Bool) (j : ℕ)
    (m : MethodBuilder) where
  passes-Sticks :
      (left pass : ℕ) (widen : List ℕ) (b : Builder)
      → Sticks b (passes body sig receiver j m left pass widen b)
  unfolding passes
  passes-Sticks zero pass widen b = fail-Sticks no_convergence b
  passes-Sticks (suc left) pass widen b =
      let c = run_body body sig receiver pass widen b in
      let d = (resolve c).1 in
      let b' : Builder = record b { pool = c.p } in
      Sticks-trans b b' _ (same-Sticks b b' refl refl) (
        settle-Sticks c.err c.reachable (resolve c).0
          (passes body sig receiver j m left (suc pass) d.widen) (finish j m d) b'
          (passes-Sticks left (suc pass) d.widen b') (finish-Sticks j m d b'))

with_signature-Sticks :
    (run : Method → Bool → B) (receiver : Bool) (r : Result Reason Method) (b : Builder)
    → ((sig : Method) → Sticks b (run sig receiver b))
    → Sticks b (with_signature run receiver r b)
unfolding check_arg_slots
with_signature-Sticks run receiver (ok sig) b runs =
    elim (Bool-cases (ltb max_arg_slots (arg_slots sig receiver))) [
      | inl over ↦
          rw (over, with_signature, check_arg_slots) (fail-Sticks (bad_method too_many_slots) b)
      | inr fits ↦ rw (fits, with_signature, check_arg_slots) (runs sig)
    ]
with_signature-Sticks run receiver (err e) b runs = fail-Sticks (bad_method e) b
with_signature-Sticks run receiver stuck b runs = same-Sticks b b refl refl

pub code-Sticks : (body : CodeWriter → CodeWriter) (j : ℕ) (b : Builder) → Sticks b (code body j b)
unfolding code
code-Sticks body j b =
    let run : Option MethodBuilder → Builder = λ o. elim o [
      | none ↦ b
      | some m ↦
          with_signature (λ sig receiver. passes body sig receiver j m max_replays 0 [])
            (not (has_flags m.flags acc_static)) (parse_method m.descriptor) b
    ] in
    elim b.err as (λ o. Sticks b (elim o [ some e ↦ b | none ↦ run (get_elem? b.methods j) ])) [
      | some e ↦ same-Sticks b b refl refl
      | none ↦
          at_member (get_elem? b.methods j)
            (λ m.
              with_signature (λ sig receiver. passes body sig receiver j m max_replays 0 [])
                (not (has_flags m.flags acc_static)) (parse_method m.descriptor))
            b
            λ m.
              with_signature-Sticks (λ sig receiver. passes body sig receiver j m max_replays 0 [])
                (not (has_flags m.flags acc_static)) (parse_method m.descriptor) b
                λ sig.
                  passes-Sticks body sig (not (has_flags m.flags acc_static)) j m max_replays 0 [] b
    ]
