-- ===== src/Classfile/Builder/TextRules.antt =====
-- classfile/builder.go: what interning the texts of a builder does to its pool.
use mocha.Prelude.{All, List, [], arith, inl, ℕ, ◌<◌, ◌∷◌}
use mocha.Classfile.Builder.{Builder}
use mocha.Classfile.Builder.Interns.{Interning, Texts}
use mocha.Classfile.ConstPool.Content.{IsSpelled, intern_key-Spells}
use mocha.Classfile.Pool.{PoolBuilder}
use mocha.Classfile.Pool.Interning.{intern_key_lem}
use mocha.Classfile.Pool.Keys.{class, utf8}
use mocha.Classfile.Pool.Rules.{Inv, Step, Step-refl, Step-trans}
use mocha.Jvm.Mutf8.{IsScalar}

-- From a valid pool `p` to a valid pool that only has more entries.
pub record Onward (p q : PoolBuilder) : Type 0 where
  pub onward : Inv p → Step p q × Inv q

pub Onward-trans : (p q r : PoolBuilder) → Onward p q → Onward q r → Onward p r
Onward-trans p q r a c = record {
  onward = λ v.
      let (step, valid) = a.onward v in
      let (step', valid') = c.onward valid in (Step-trans step step', valid');
}

-- Nothing is asked of a text.
abbrev pub Anything : List ℕ → Type 0
Anything x = Unit

-- Whatever the texts are, interning them only adds to a valid pool.
pub any_text : Interning Anything Onward
any_text = record {
  on_refl = λ p. record { onward = λ v. (Step-refl p, v) };
  on_trans = Onward-trans;
  of_utf8 = λ x p good. record {
    onward = λ v. let (step, valid, holds) = intern_key_lem (utf8 x) p v in (step, valid);
  };
  of_class = λ x p good. record {
    onward = λ v. let (step, valid, holds) = intern_key_lem (class x) p v in (step, valid);
  };
  of_ascii = λ x low. tt;
}

-- Where they are Go strings, they leave entries that a file of this version may hold.
pub record Spelled (major : ℕ) (p q : PoolBuilder) : Type 0 where
  pub spelled : IsSpelled major p → IsSpelled major q

ascii-IsScalar : (x : List ℕ) → All (λ c. c < 128) x → All IsScalar x
ascii-IsScalar [] low = tt
ascii-IsScalar (c ∷ x) (low, lows) = (inl (omega arith), ascii-IsScalar x lows)

pub go_strings : (major : ℕ) → Interning (All IsScalar) (Spelled major)
go_strings major = record {
  on_refl = λ p. record { spelled = λ v. v };
  on_trans = λ p q r a c. record { spelled = λ v. c.spelled (a.spelled v) };
  of_utf8 = λ x p good. record { spelled = λ v. (intern_key-Spells major (utf8 x) good).after p v };
  of_class =
      λ x p good. record { spelled = λ v. (intern_key-Spells major (class x) good).after p v };
  of_ascii = ascii-IsScalar;
}

pub each_of : {A : Type 0} {P : A → Type 0} → ((x : A) → P x) → (xs : List A) → All P xs
each_of each [] = tt
each_of each (x ∷ xs) = (each x, each_of each xs)

pub any_Texts : (b : Builder) → Texts Anything b
any_Texts b = record {
  name_ok = tt;
  super_ok = tt;
  ifaces_ok = each_of (λ x. tt) b.ifaces;
  fields_ok =
      each_of (λ f. record { name_ok = tt; descriptor_ok = tt; signature_ok = tt }) b.fields;
  methods_ok =
      each_of
        (λ m. record {
          name_ok = tt;
          descriptor_ok = tt;
          signature_ok = tt;
          exceptions_ok = each_of (λ x. tt) m.exceptions;
          locals_ok = each_of (λ v. (tt, tt)) m.locals;
        })
        b.methods;
  source_file_ok = tt;
}

-- The pool is not one of the texts.
pub with_pool :
    {IsText : List ℕ → Type 0} (b : Builder) (p : PoolBuilder)
    → Texts IsText b
    → Texts IsText (record b { pool = p })
with_pool b p t = record {
  name_ok = t.name_ok;
  super_ok = t.super_ok;
  ifaces_ok = t.ifaces_ok;
  fields_ok = t.fields_ok;
  methods_ok = t.methods_ok;
  source_file_ok = t.source_file_ok;
}
