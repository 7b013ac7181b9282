-- ===== src/Classfile/Builder/Runs.antt =====
-- classfile/builder.go: a builder that is used in any way, its version and its first error.
use mocha.Prelude.{List, [], arith, err, get_elem?, refl, some, ℕ, ◌++◌, ◌∷◌, ◌≡◌}
use mocha.Classfile.Builder.{
  Builder, BuilderError, add_field, add_interface, add_method, constant_of, new_builder,
  set_field_signature, set_flags, set_method_signature, set_source_file, set_super, set_version,
  throws, update_field, update_method,
}
use mocha.Classfile.Builder.Body.{code}
use mocha.Classfile.Builder.Bytes.{bytes}
use mocha.Classfile.Builder.Sticks.{
  IsTarget, Sticks, Sticks-trans, add_field-Sticks, add_method-Sticks, at_member, code-Sticks,
  same-Sticks, set_constant-Sticks, set_version-Sticks,
}
use mocha.Classfile.Code.{CodeWriter}
use mocha.Classfile.Code.Fits.{failed}
use mocha.Classfile.Pool.{M}
use mocha.Classfile.Version.{Version}
use mocha.Classfile.Pool

-- What a caller can do with a builder, a field or a method.
pub data Call : Builder → Builder → Type 0 where
  sets_version : {b : Builder} (v : Version) → Call b (set_version v b)
  sets_flags : {b : Builder} (f : ℕ) → Call b (set_flags f b)
  sets_super : {b : Builder} (s : List ℕ) → Call b (set_super s b)
  adds_interface : {b : Builder} (s : List ℕ) → Call b (add_interface s b)
  sets_source_file : {b : Builder} (s : List ℕ) → Call b (set_source_file s b)
  adds_field : {b : Builder} (f : ℕ) (n d : List ℕ) → Call b (add_field f n d b).1
  adds_method : {b : Builder} (f : ℕ) (n d : List ℕ) → Call b (add_method f n d b).1
  sets_constant : {b : Builder} (build : Pool.M) (j : ℕ) → Call b (constant_of build j b)
  signs_field : {b : Builder} (j : ℕ) (s : List ℕ) → Call b (set_field_signature j s b)
  signs_method : {b : Builder} (j : ℕ) (s : List ℕ) → Call b (set_method_signature j s b)
  declares : {b : Builder} (j : ℕ) (s : List ℕ) → Call b (throws j s b)
  builds_code : {b : Builder} (body : CodeWriter → CodeWriter) (j : ℕ) → Call b (code body j b)

pub data Calls : Builder → Builder → Type 0 where
  rest : {b : Builder} → Calls b b
  then_call : {b c d : Builder} → Calls b c → Call c d → Calls b d

Call-Sticks : {b c : Builder} → Call b c → Sticks b c
Call-Sticks {b = b} (sets_version v) = set_version-Sticks v b
Call-Sticks (sets_flags f) = same-Sticks _ _ refl refl
Call-Sticks (sets_super s) = same-Sticks _ _ refl refl
Call-Sticks (adds_interface s) = same-Sticks _ _ refl refl
Call-Sticks (sets_source_file s) = same-Sticks _ _ refl refl
Call-Sticks {b = b} (adds_field f n d) = add_field-Sticks f n d b
Call-Sticks {b = b} (adds_method f n d) = add_method-Sticks f n d b
Call-Sticks {b = b} (sets_constant build j) =
    let c : Builder = record b { pool = (build b.pool).1 } in
    Sticks-trans b c _ (same-Sticks b c refl refl) (set_constant-Sticks j (build b.pool).0 c)
Call-Sticks {b = b} (signs_field j s) =
    at_member (get_elem? b.fields j) (λ f. update_field j (record f { signature = s })) b
      λ f. same-Sticks b _ refl refl
Call-Sticks {b = b} (signs_method j s) =
    at_member (get_elem? b.methods j) (λ m. update_method j (record m { signature = s })) b
      λ m. same-Sticks b _ refl refl
Call-Sticks {b = b} (declares j s) =
    at_member (get_elem? b.methods j)
      (λ m. update_method j (record m { exceptions = m.exceptions ++ (s ∷ []) })) b
      λ m. same-Sticks b _ refl refl
Call-Sticks {b = b} (builds_code body j) = code-Sticks body j b

Calls-Sticks : {b c : Builder} → Calls b c → Sticks b c
Calls-Sticks rest = same-Sticks _ _ refl refl
Calls-Sticks (then_call run last) = Sticks-trans _ _ _ (Calls-Sticks run) (Call-Sticks last)

new-IsTarget : (s : List ℕ) → IsTarget (new_builder s).version
unfolding new_builder
new-IsTarget s = (omega arith, omega arith, λ same. omega (arith, same))

-- However a new builder is used, its version stays one that needs no stack map and claims no preview:
-- 45 to 49, with a minor version that is not 65535.
pub Calls-IsTarget : (s : List ℕ) (b : Builder) → Calls (new_builder s) b → IsTarget b.version
Calls-IsTarget s b run = (Calls-Sticks run).target (new-IsTarget s)

-- Once a builder has an error, `Bytes` refuses with that first error, whatever was done in between.
pub bytes-Calls :
    (b c : Builder) (e : BuilderError) → Calls b c → b.err ≡ some e → (bytes c).0 ≡ err e
unfolding bytes
bytes-Calls b c e run failed = rw ((Calls-Sticks run).first e failed, bytes) refl
