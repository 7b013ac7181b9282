-- ===== src/Classfile/Builder/Tests.antt =====
-- Runs of the builder, and the theorems at concrete inputs.
use mocha.Prelude.{
  Bool-cases, List, [], arith, err, false, get_elem?, inl, inr, none, ok, refl, some, ℕ, ◌∷◌, ◌≡◌,
  ◌≢◌,
}
use mocha.Classfile.Builder.{
  Builder, MethodBuilder, acc_static, add_method, fail, new_builder, no_convergence, set_flags,
  set_version, stack_map_needed,
}
use mocha.Classfile.Builder.Body.{code}
use mocha.Classfile.Builder.Bytes.{bytes}
use mocha.Classfile.Builder.ClassFile.{IsClassFile, bytes-IsClassFile}
use mocha.Classfile.Builder.Converges.{Replays, code-ne-no_convergence}
use mocha.Classfile.Builder.Members.{put, put_each, when, ◌>>>>◌}
use mocha.Classfile.Builder.Runs.{
  Calls-IsTarget, bytes-Calls, rest, sets_flags, sets_version, then_call,
}
use mocha.Classfile.Builder.Sticks.{IsTarget}
use mocha.Classfile.Builder.Stored.{LastPass, code-LastPass}
use mocha.Classfile.Code.{CodeWriter, emit_op, enter, label_at, mark, new_label, note_depth, pop}
use mocha.Classfile.Code.Branches.{branch, goto_label, try_catch}
use mocha.Classfile.Code.Calls.{
  Steps, does_goto_label, does_mark, does_new_label, start_writer, stay, then_step,
}
use mocha.Classfile.Code.Delta.{member, simple_delta}
use mocha.Classfile.Code.Grows.{Grows, Steps-Grows}
use mocha.Classfile.Code.Members.{return_value, simple_op}
use mocha.Classfile.Pool.{new_pool_builder}
use mocha.Classfile.Pool.Again.{new-Inv}
use mocha.Classfile.Pool.Rules.{Inv}
use mocha.Classfile.Wire.{patch_u2, u1, u2}
use mocha.Jvm.Desc.{is_ref, parse_method, parse_return, parse_type, void}
use mocha.Jvm.Mutf8.{encode, encoded_len}
use mathlib.Core.Option

-- A closure that loops for ever: it places a label and jumps to it.
abbrev loop : CodeWriter → CodeWriter
loop c = goto_label (new_label c).0 (mark (new_label c).0 (new_label c).1)

loop-Steps : (c : CodeWriter) → Steps c (loop c)
loop-Steps c =
    then_step (then_step (then_step stay does_new_label) (does_mark _)) (does_goto_label _)

loop-Replays : Replays 1 loop
unfolding goto_label new_label mark branch note_depth emit_op enter fail pop label_at
loop-Replays = record {
  pass = λ p t major widen number args.
      let c : CodeWriter = start_writer p t major widen number args in
      elim (Bool-cases (member 0 widen)) [
        | inl e ↦ (loop-Steps c, rw e (omega arith), rw e ((0, refl), tt))
        | inr e ↦ (loop-Steps c, rw e (omega arith), rw e ((0, refl), tt))
      ];
}

-- A static method "f" of "()V".
abbrev sample : Builder
sample = (add_method acc_static (b'f' ∷ []) (b'(' ∷ b')' ∷ b'V' ∷ []) (new_builder (b'C' ∷ []))).1

abbrev sample_method : MethodBuilder
sample_method = record {
  flags = acc_static;
  name = b'f' ∷ [];
  descriptor = b'(' ∷ b')' ∷ b'V' ∷ [];
  signature = [];
  exceptions = [];
  code = [];
  max_stack = 0;
  max_locals = 0;
  handlers = [];
  lines = [];
  locals = [];
  has_code = false;
}

sample_clean : sample.err ≡ none
unfolding add_method new_builder parse_method mocha.Jvm.Desc.parse_return mocha.Jvm.Desc.parse_type
sample_clean = refl

sample_found : get_elem? sample.methods 0 ≡ some sample_method
unfolding add_method new_builder parse_method mocha.Jvm.Desc.parse_return mocha.Jvm.Desc.parse_type
sample_found = refl

loop_clean : (code loop 0 sample).err ≡ none
unfolding code goto_label add_method new_builder parse_method parse_return parse_type mark new_label
    patch_u2 u2 u1
loop_clean = refl

Steps-Grows_example :
    Grows
      (start_writer new_pool_builder (record { kind = void; dims = 0; name = [] }) 49 [] 0 0)
      (loop (start_writer new_pool_builder (record { kind = void; dims = 0; name = [] }) 49 [] 0 0))
Steps-Grows_example = Steps-Grows _ _ (loop-Steps _)

code-ne-no_convergence_example : (code loop 0 sample).err ≢ some no_convergence
code-ne-no_convergence_example =
    code-ne-no_convergence 1 loop 0 sample (omega arith) loop-Replays sample_clean

code-LastPass_example : LastPass loop 49 0 sample_method (code loop 0 sample)
unfolding add_method new_builder parse_return parse_type
code-LastPass_example =
    code-LastPass loop 0 sample_method sample sample_clean sample_found loop_clean

-- The jump of the loop goes to itself.
loop_code :
    Option.map (λ (m : MethodBuilder). m.code) (get_elem? (code loop 0 sample).methods 0)
    ≡ some (167 ∷ 0 ∷ 0 ∷ [])
unfolding code goto_label add_method new_builder parse_method parse_return parse_type mark new_label
    patch_u2 u2 u1
loop_code = refl

-- A handler whose labels are never placed: no error, and offsets of 65535.
abbrev lost : CodeWriter → CodeWriter
lost c = return_value (
    try_catch (record { start = 0; end = 1; handler = 2; catch_type = [] })
      (new_label (new_label (new_label c).1).1).1)

lost_handlers :
    Option.map (λ (m : MethodBuilder). m.handlers) (get_elem? (code lost 0 sample).methods 0)
    ≡ some (record { start = 65535; end = 65535; handler = 65535; catch_type = 0 } ∷ [])
unfolding code return_value try_catch add_method new_builder parse_method parse_return parse_type
    is_ref new_label simple_op simple_delta u1
lost_handlers = refl

lost_clean : (code lost 0 sample).err ≡ none
unfolding code return_value try_catch add_method new_builder parse_method parse_return parse_type
    is_ref new_label simple_op simple_delta u1
lost_clean = refl

abbrev plain : Builder
plain = new_builder (b'C' ∷ [])

plain-Inv : Inv plain.pool
unfolding new_builder
plain-Inv = new-Inv

-- The class "C" without members.
abbrev plain_bytes : List ℕ
plain_bytes =
    0xCA ∷ 0xFE ∷ 0xBA ∷ 0xBE ∷ 0 ∷ 0 ∷ 0 ∷ 49 ∷ 0 ∷ 5 ∷ 1 ∷ 0 ∷ 1 ∷ b'C' ∷ 7 ∷ 0 ∷ 1 ∷ 1 ∷ 0 ∷ 16
    ∷ b'j' ∷ b'a' ∷ b'v' ∷ b'a' ∷ b'/' ∷ b'l' ∷ b'a' ∷ b'n' ∷ b'g' ∷ b'/' ∷ b'O' ∷ b'b' ∷ b'j'
    ∷ b'e' ∷ b'c' ∷ b't' ∷ 7 ∷ 0 ∷ 3 ∷ 0 ∷ 0x21 ∷ 0 ∷ 2 ∷ 0 ∷ 4 ∷ 0 ∷ 0 ∷ 0 ∷ 0 ∷ 0 ∷ 0 ∷ 0 ∷ 0 ∷ []

plain_written : (bytes plain).0 ≡ ok plain_bytes
unfolding bytes new_builder ◌>>>>◌ when put put_each encoded_len u1 encode
plain_written = refl

bytes-IsClassFile_example : IsClassFile plain (bytes plain).1 plain_bytes
bytes-IsClassFile_example = bytes-IsClassFile plain plain_bytes plain-Inv plain_written

-- Version 50 is refused.
abbrev too_new : Builder
too_new = set_version (record { major = 50; minor = 0 }) plain

too_new_failed : too_new.err ≡ some stack_map_needed
unfolding set_version new_builder
too_new_failed = refl

Calls-IsTarget_example : IsTarget too_new.version
Calls-IsTarget_example =
    Calls-IsTarget (b'C' ∷ []) too_new
      (then_call rest (sets_version (record { major = 50; minor = 0 })))

bytes-Calls_example : (bytes (set_flags 1 too_new)).0 ≡ err stack_map_needed
bytes-Calls_example =
    bytes-Calls too_new (set_flags 1 too_new) stack_map_needed (then_call rest (sets_flags 1))
      too_new_failed
