-- ===== src/Classfile/Builder/ClassFile.antt =====
-- classfile/builder.go: the class file that `Bytes` writes, and its pool.
use mocha.Prelude.{
  All, Bool, List, Option, Result, [], err, false, if◌then◌else◌, inl, inr, none, not, ok, refl,
  some, sym, true, ℕ, ◌++◌, ◌∷◌, ◌≡◌, ◌⊎◌,
}
use mocha.Classfile.Builder.{Builder, BuilderError, no_superclass, object_name}
use mocha.Classfile.Builder.Bytes.{bytes, bytes_with}
use mocha.Classfile.Builder.Interns.{Texts, class_indices-On}
use mocha.Classfile.Builder.Layout.{
  IsBare, IsSameHeader, bytes_with-IsWritten, ifaces_then, no_tables, up_to_names,
}
use mocha.Classfile.Builder.Members.{class_indices, is_some_text}
use mocha.Classfile.Builder.TextRules.{
  Onward, Onward-trans, any_Texts, any_text, each_of, go_strings, with_pool,
}
use mocha.Classfile.ConstPool.Content.{IsSpelled}
use mocha.Classfile.ConstPool.Resolve.{is_text}
use mocha.Classfile.Pool.{PoolBuilder, Slots, intern_class}
use mocha.Classfile.Pool.Entries.{Denotes, Denotes-append}
use mocha.Classfile.Pool.Interning.{intern_key_lem}
use mocha.Classfile.Pool.Keys.{class}
use mocha.Classfile.Pool.Rules.{Inv, Step, Step-trans}
use mocha.Jvm.Mutf8.{IsScalar}
use mathlib.Core.Path.{subst}

-- Indices that stand for classes, in order.
abbrev pub AreClasses : Slots → List (List ℕ) → List ℕ → Type 0
AreClasses s [] [] = Unit
AreClasses s [] (i ∷ is) = ⊥
AreClasses s (x ∷ xs) [] = ⊥
AreClasses s (x ∷ xs) (i ∷ is) = Denotes s (class x) i × AreClasses s xs is

-- No superclass, which only Object may be without.
pub record IsRoot (b : Builder) (super : ℕ) : Type 0 where
  pub index_eq : super ≡ 0
  pub super_eq : b.super ≡ []
  pub name_is : is_text b.name object_name ≡ true

-- A class file: the index of the class stands for its name in the pool that is written, and that of
-- the superclass for its name, or it is 0 and there is no superclass.
pub record IsClassFile (b d : Builder) (out : List ℕ) : Type 0 where
  pub this : ℕ
  pub super : ℕ
  pub ifaces : List ℕ
  pub tables : List ℕ
  pub spelled : out ≡ up_to_names d this super ++ ifaces_then ifaces tables
  pub bare : IsBare b → tables ≡ no_tables
  pub pool_clean : d.pool.err ≡ none
  pub clean : d.err ≡ none
  pub valid : Inv d.pool
  pub grown : Step b.pool d.pool
  pub this_is : Denotes d.pool.slots (class b.name) this
  pub super_is : Denotes d.pool.slots (class b.super) super ⊎ IsRoot b super
  pub ifaces_are : AreClasses d.pool.slots b.ifaces ifaces
  pub header : IsSameHeader b d
  pub spells :
      (major : ℕ) → Texts (All IsScalar) b → IsSpelled major b.pool → IsSpelled major d.pool

-- An index that was returned on the way stands for its class in the end.
class_after :
    (x : List ℕ) (p q : PoolBuilder)
    → Inv p
    → Onward (intern_class x p).1 q
    → q.err ≡ none
    → Denotes q.slots (class x) (intern_class x p).0
class_after x p q v on clean =
    let (step, valid, holds) = intern_key_lem (class x) p v in
    let (steps, valids) = on.onward valid in
    subst (λ s. Denotes s (class x) (intern_class x p).0) (sym steps.grows)
      (Denotes-append (intern_class x p).1.slots steps.more (class x) (intern_class x p).0
        (holds (steps.sticky clean)))

classes_after :
    (xs : List (List ℕ)) (p q : PoolBuilder)
    → Inv p
    → Onward (class_indices xs p).1 q
    → q.err ≡ none
    → AreClasses q.slots xs (class_indices xs p).0
unfolding class_indices
classes_after [] p q v on clean = tt
classes_after (x ∷ xs) p q v on clean =
    let r = (intern_class x p).1 in
    let (step, valid) = (any_text.of_class x p tt).onward v in
    let all = class_indices-On any_text xs r (each_of (λ y. tt) xs) in
    (
      class_after x p q v (Onward-trans r (class_indices xs r).1 q all on) clean,
      classes_after xs r q valid on clean,
    )

with_super :
    (b : Builder) (out : List ℕ)
    → Inv b.pool
    → let p : PoolBuilder = (intern_class b.name b.pool).1 in
      let q : PoolBuilder = (intern_class b.super p).1 in
      let r : Result BuilderError (List ℕ) × Builder =
        bytes_with
          (intern_class b.name b.pool).0
          (intern_class b.super p).0
          (record b { pool = q }) in
      r.0 ≡ ok out → IsClassFile b r.1 out
with_super b out v h =
    let p = (intern_class b.name b.pool).1 in
    let q = (intern_class b.super p).1 in
    let w =
      bytes_with-IsWritten any_text (intern_class b.name b.pool).0 (intern_class b.super p).0
        (record b { pool = q }) out (with_pool b q (any_Texts b)) h in
    let d =
      (bytes_with (intern_class b.name b.pool).0 (intern_class b.super p).0
        (record b { pool = q })).1 in
    let (step, valid) = (any_text.of_class b.name b.pool tt).onward v in
    let on = Onward-trans p q d.pool (any_text.of_class b.super p tt) w.onward in
    let (steps, valids) = on.onward valid in
    record {
      this = (intern_class b.name b.pool).0;
      super = (intern_class b.super p).0;
      ifaces = (class_indices b.ifaces q).0;
      tables = w.tables;
      spelled = w.spelled;
      bare = λ e. w.bare (record {
        fields_eq = e.fields_eq;
        methods_eq = e.methods_eq;
        source_file_eq = e.source_file_eq;
      });
      pool_clean = w.pool_clean;
      clean = w.clean;
      valid = valids;
      grown = Step-trans step steps;
      this_is = class_after b.name b.pool d.pool v on w.pool_clean;
      super_is = inl (class_after b.super p d.pool valid w.onward w.pool_clean);
      ifaces_are =
          classes_after b.ifaces q d.pool ((any_text.of_class b.super p tt).onward valid).1 w.behind
            w.pool_clean;
      header = record { version_eq = w.header.version_eq; flags_eq = w.header.flags_eq };
      spells = λ major texts s.
          let laws = go_strings major in
          let more =
            bytes_with-IsWritten laws (intern_class b.name b.pool).0 (intern_class b.super p).0
              (record b { pool = q }) out (with_pool b q texts) h in
          let named = (laws.of_class b.name b.pool texts.name_ok).spelled s in
          more.onward.spelled ((laws.of_class b.super p texts.super_ok).spelled named);
    }

without_super :
    (b : Builder) (out : List ℕ)
    → Inv b.pool
    → b.super ≡ []
    → is_text b.name object_name ≡ true
    → let p : PoolBuilder = (intern_class b.name b.pool).1 in
      let r : Result BuilderError (List ℕ) × Builder =
        bytes_with (intern_class b.name b.pool).0 0 (record b { pool = p }) in
      r.0 ≡ ok out → IsClassFile b r.1 out
without_super b out v root named h =
    let p = (intern_class b.name b.pool).1 in
    let w =
      bytes_with-IsWritten any_text (intern_class b.name b.pool).0 0 (record b { pool = p }) out
        (with_pool b p (any_Texts b)) h in
    let d = (bytes_with (intern_class b.name b.pool).0 0 (record b { pool = p })).1 in
    let (step, valid) = (any_text.of_class b.name b.pool tt).onward v in
    let (steps, valids) = w.onward.onward valid in
    record {
      this = (intern_class b.name b.pool).0;
      super = 0;
      ifaces = (class_indices b.ifaces p).0;
      tables = w.tables;
      spelled = w.spelled;
      bare = λ e. w.bare (record {
        fields_eq = e.fields_eq;
        methods_eq = e.methods_eq;
        source_file_eq = e.source_file_eq;
      });
      pool_clean = w.pool_clean;
      clean = w.clean;
      valid = valids;
      grown = Step-trans step steps;
      this_is = class_after b.name b.pool d.pool v w.onward w.pool_clean;
      super_is = inr (record { index_eq = refl; super_eq = root; name_is = named });
      ifaces_are = classes_after b.ifaces p d.pool valid w.behind w.pool_clean;
      header = record { version_eq = w.header.version_eq; flags_eq = w.header.flags_eq };
      spells = λ major texts s.
          let laws = go_strings major in
          let more =
            bytes_with-IsWritten laws (intern_class b.name b.pool).0 0 (record b { pool = p }) out
              (with_pool b p texts) h in
          more.onward.spelled ((laws.of_class b.name b.pool texts.name_ok).spelled s);
    }

no_text : {A : Type 0} (xs : List A) → is_some_text xs ≡ false → xs ≡ []
no_text [] h = refl
no_text (x ∷ xs) h = cc

true_of : (t : Bool) → not t ≡ false → t ≡ true
true_of true h = refl
true_of false h = cc

by_super :
    (b c : Builder) (out : List ℕ) (o : Option BuilderError) (named other : Bool) (e : BuilderError)
    (x y : Result BuilderError (List ℕ) × Builder)
    → (named ≡ true → x.0 ≡ ok out → IsClassFile b x.1 out)
    → (named ≡ false → other ≡ false → y.0 ≡ ok out → IsClassFile b y.1 out)
    → let r : Result BuilderError (List ℕ) × Builder = elim o [
      | some f ↦ (err f, b)
      | none ↦ if named then x else if other then (err e, c) else y
    ] in
      r.0 ≡ ok out → IsClassFile b r.1 out
by_super b c out (some f) named other e x y hx hy = λ h. cc
by_super b c out none true other e x y hx hy = hx refl
by_super b c out none false true e x y hx hy = λ h. cc
by_super b c out none false false e x y hx hy = hy refl refl

-- If `Bytes` succeeds on a builder whose pool is valid, the file starts with the magic number, the
-- version and the pool, and goes on with the flags, the indices of the class and its superclass, and the
-- count and the indices of the interfaces. That pool has all that `Bytes` interned on the way, with no
-- error noted, and only adds to the pool that there was; in it the first index stands for the name of
-- the class, the second for that of the superclass, or it is 0, no superclass was named, and the class
-- is Object, and the others stand for the interfaces in their order. The version and the flags are those
-- of the builder; and where its texts are Go strings, a pool of entries that a file of some version may
-- hold is still one. What follows, without members and a source file, is three counts of zero.
pub bytes-IsClassFile :
    (b : Builder) (out : List ℕ) → Inv b.pool → (bytes b).0 ≡ ok out → IsClassFile b (bytes b).1 out
unfolding bytes
bytes-IsClassFile b out v =
    by_super b _ out b.err (is_some_text b.super) (not (is_text b.name object_name)) no_superclass _
      _ (λ named. with_super b out v)
      (λ root known.
        without_super b out v (no_text b.super root) (true_of (is_text b.name object_name) known))
