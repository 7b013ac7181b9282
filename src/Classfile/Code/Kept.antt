-- ===== src/Classfile/Code/Kept.antt =====
-- classfile/codewriter.go: an invariant of the writer that the parts of its methods keep is kept by all
-- of its methods, and so by every closure.
pub mod Instructions
pub mod Members
pub mod Branches
pub mod Runs
use mocha.Prelude.{
  Bool, List, Result, [], err, false, if◌then◌else◌, ltb, none, not, ok, refl, some, stuck, suc,
  true, zero, ℕ, ◌∷◌, ◌≡◌,
}
use mocha.Classfile.Code.{
  CodeError, CodeWriter, HandlerRec, LineNumber, LocalRec, M, SwitchRec, bad_descriptor, emit_op,
  fail, local_op, mark, new_label, note_depth, pop, push, terminate, unless_failed, use_local,
  with_index, write_u1, write_u2, write_u4,
}
use mocha.Classfile.Code.Branches.{branch, each, record_switch, times, try_catch}
use mocha.Classfile.Code.Instructions.{with_parsed}
use mocha.Classfile.Pool.{PoolBuilder}

-- An invariant, and what keeps it.
pub record Rules : Type 1 where
  pub Inv : CodeWriter → Type 0
  pub failing : (e : CodeError) (c : CodeWriter) → Inv c → Inv (fail e c)
  pub writing_u1 : (v : ℕ) (c : CodeWriter) → Inv c → Inv (write_u1 v c)
  pub writing_u2 : (v : ℕ) (c : CodeWriter) → Inv c → Inv (write_u2 v c)
  pub writing_u4 : (v : ℕ) (c : CodeWriter) → Inv c → Inv (write_u4 v c)
  pub ending : (c : CodeWriter) → Inv c → Inv (terminate c)
  pub pushing : (n : ℕ) (c : CodeWriter) → Inv c → Inv (push n c)
  pub popping : (n : ℕ) (c : CodeWriter) → Inv c → Inv (pop n c)
  pub using : (slot width : ℕ) (c : CodeWriter) → Inv c → Inv (use_local slot width c)
  pub noting : (l : ℕ) (c : CodeWriter) → Inv c → Inv (note_depth l c)
  pub pooling : (p : PoolBuilder) (c : CodeWriter) → Inv c → Inv (record c { p = p })
  pub naming : (ls : List LocalRec) (c : CodeWriter) → Inv c → Inv (record c { locals = ls })
  pub numbering : (ls : List LineNumber) (c : CodeWriter) → Inv c → Inv (record c { lines = ls })
  pub switching : (s : SwitchRec) (c : CodeWriter) → Inv c → Inv (record_switch s c)

abbrev pub Keeps : Rules → M → Type 0
Keeps r f = (c : CodeWriter) → r.Inv c → r.Inv (f c)

-- What keeps it where branches, handlers and labels are recorded.
pub record LabelRules : Type 1 where
  pub rules : Rules
  pub branching : (o l pops : ℕ) → Keeps rules (branch o l pops)
  pub handling : (h : HandlerRec) → Keeps rules (try_catch h)
  pub marking : (l : ℕ) → Keeps rules (mark l)
  pub labelling : Keeps rules (λ c. (new_label c).1)

module _ (r : Rules) where
  pub fail-Keeps : (e : CodeError) → Keeps r (fail e)
  fail-Keeps = r.failing

  pub write_u1-Keeps : (v : ℕ) → Keeps r (write_u1 v)
  write_u1-Keeps = r.writing_u1

  pub write_u2-Keeps : (v : ℕ) → Keeps r (write_u2 v)
  write_u2-Keeps = r.writing_u2

  pub write_u4-Keeps : (v : ℕ) → Keeps r (write_u4 v)
  write_u4-Keeps = r.writing_u4

  pub terminate-Keeps : Keeps r terminate
  terminate-Keeps = r.ending

  pub push-Keeps : (n : ℕ) → Keeps r (push n)
  push-Keeps = r.pushing

  pub pop-Keeps : (n : ℕ) → Keeps r (pop n)
  pop-Keeps = r.popping

  pub use_local-Keeps : (slot width : ℕ) → Keeps r (use_local slot width)
  use_local-Keeps = r.using

  pub note_depth-Keeps : (l : ℕ) → Keeps r (note_depth l)
  note_depth-Keeps = r.noting

  pub if-Inv :
      (b : Bool) {c d : CodeWriter}
      → (b ≡ true → r.Inv c)
      → (b ≡ false → r.Inv d)
      → r.Inv (if b then c else d)
  if-Inv true p q = p refl
  if-Inv false p q = q refl

  pub if-Keeps : (b : Bool) {f g : M} → Keeps r f → Keeps r g → Keeps r (if b then f else g)
  if-Keeps true p q = p
  if-Keeps false p q = q

  pub unless_failed-Keeps : (f : M) → Keeps r f → Keeps r (unless_failed f)
  unless_failed-Keeps f keeps c inv =
      elim c.err as (λ x. r.Inv (elim x [ none ↦ f c | some e ↦ c ])) [
        | none ↦ keeps c inv
        | some e ↦ inv
      ]

  pub emit_op-Keeps : (o : ℕ) → Keeps r (emit_op o)
  unfolding emit_op
  emit_op-Keeps o c inv =
      if-Inv (not c.reachable) {d = write_u1 o c} (λ b. r.failing _ c inv)
        λ b. write_u1-Keeps o c inv

  pub with_index-Keeps :
      (build : PoolBuilder → ℕ × PoolBuilder) {f : ℕ → M}
      → ((i : ℕ) → Keeps r (f i))
      → Keeps r (with_index build f)
  with_index-Keeps build keeps c inv =
      keeps (build c.p).0 (record c { p = (build c.p).1 }) (r.pooling (build c.p).1 c inv)

  pub with_parsed-Keeps {ℓ} :
      {A : Type ℓ} {E : Type ℓ} (x : Result E A) {f : A → M}
      → ((a : A) → Keeps r (f a))
      → Keeps r (with_parsed x f)
  with_parsed-Keeps (ok a) keeps = keeps a
  with_parsed-Keeps (err e) keeps = fail-Keeps bad_descriptor
  with_parsed-Keeps stuck keeps = fail-Keeps bad_descriptor

  pub each-Keeps {ℓ} :
      {A : Type ℓ} {f : A → M} → ((a : A) → Keeps r (f a)) → (xs : List A) → Keeps r (each f xs)
  each-Keeps keeps [] c inv = inv
  each-Keeps keeps (x ∷ xs) c inv = each-Keeps keeps xs _ (keeps x c inv)

  pub times-Keeps : (n : ℕ) {f : M} → Keeps r f → Keeps r (times n f)
  times-Keeps zero keeps c inv = inv
  times-Keeps (suc n) keeps c inv = times-Keeps n keeps _ (keeps c inv)

pub ruleset writes = (
  write_u1-Keeps, write_u2-Keeps, write_u4-Keeps, terminate-Keeps, emit_op-Keeps, push-Keeps,
  pop-Keeps, use_local-Keeps, fail-Keeps, note_depth-Keeps,
)

pub local_op-Keeps :
    (r : Rules) (general compact slot width : ℕ) → Keeps r (local_op general compact slot width)
unfolding local_op
local_op-Keeps r general compact slot width c inv =
    unless_failed-Keeps r _
      (if-Keeps r (ltb slot 4) (search writes)
        (if-Keeps r (ltb slot 256) (search writes) (search writes)))
      _ (use_local-Keeps r slot width c inv)
