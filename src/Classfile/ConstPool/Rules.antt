-- ===== src/Classfile/ConstPool/Rules.antt =====
-- classfile/constpool.go: a property of the pool's methods that passes from the parts of a method to the
-- whole is one of all of them.
use mocha.Prelude.{
  Bool, Option, false, if◌then◌else◌, leb, ltb, none, not, some, true, ℕ, ◌%◌, ◌&&◌, ◌==◌, ◌^◌,
  ◌||◌,
}
use mocha.Classfile.ConstPool.{
  RawEntry, is_wide_tag, is_word_tag, tag_dynamic, tag_invoke_dynamic, tag_method_handle,
}
use mocha.Classfile.ConstPool.Resolve.{
  L, PoolReadError, at, bad_kind, class_name_of, class_not_loadable, const_of, const_with,
  dynamic_of, form_error, give, handle_of, index_text, is_member_tag, method_type_of,
  name_and_type_of, name_error, not_a_member, not_dynamic, not_loadable, ref_of, refuse,
  unless_error, utf8_text, ◌>>=◌,
}
use mocha.Classfile.Pool.{tag_class, tag_method_type, tag_name_and_type, tag_string}

pub record Rules : Type 1 where
  pub Has : {A : Type 0} → L A → Type 0
  pub giving : {A : Type 0} (a : A) → Has (give a)
  pub refusing : {A : Type 0} (e : PoolReadError) → Has (refuse {A = A} e)
  pub binding :
      {A B : Type 0} {m : L A} {f : A → L B} → Has m → ((a : A) → Has (f a)) → Has (m >>= f)
  pub finding : (i want : ℕ) → Has (at i want)
  pub text_at : (i : ℕ) → Has (utf8_text i)

module _ (r : Rules) where
  if-Has : {A : Type 0} (b : Bool) {m n : L A} → r.Has m → r.Has n → r.Has (if b then m else n)
  if-Has true p q = p
  if-Has false p q = q

  index_text-Has : (want i : ℕ) → r.Has (index_text want i)
  index_text-Has want i = r.binding (r.finding i want) λ e. r.text_at (e.a % 2 ^ 16)

  pub class_name_of-Has : (i : ℕ) → r.Has (class_name_of i)
  unfolding class_name_of
  class_name_of-Has i = index_text-Has tag_class i

  method_type_of-Has : (i : ℕ) → r.Has (method_type_of i)
  unfolding method_type_of
  method_type_of-Has i = index_text-Has tag_method_type i

  pub name_and_type_of-Has : (i : ℕ) → r.Has (name_and_type_of i)
  unfolding name_and_type_of
  name_and_type_of-Has i = r.binding (r.finding i tag_name_and_type) λ e.
      r.binding (r.text_at (e.a % 2 ^ 16))
        λ name. r.binding (r.text_at (e.b % 2 ^ 16)) λ descriptor. r.giving (name, descriptor)

  pub ref_of-Has : (i : ℕ) → r.Has (ref_of i)
  unfolding ref_of
  ref_of-Has i = r.binding (r.finding i 0) λ e.
      if-Has (is_member_tag e.tag)
        (r.binding (class_name_of-Has (e.a % 2 ^ 16))
          λ c. r.binding (name_and_type_of-Has (e.b % 2 ^ 16)) λ nt. r.giving _)
        (r.refusing not_a_member)

  unless_error-Has :
      {A : Type 0} (o : Option PoolReadError) {m : L A} → r.Has m → r.Has (unless_error o m)
  unless_error-Has none p = p
  unless_error-Has (some e) p = r.refusing e

  pub handle_of-Has : (i major : ℕ) → r.Has (handle_of i major)
  unfolding handle_of
  handle_of-Has i major = r.binding (r.finding i tag_method_handle) λ e.
      if-Has (ltb (e.a % 2 ^ 8) 1 || ltb 9 (e.a % 2 ^ 8)) (r.refusing bad_kind) (
        r.binding (ref_of-Has (e.b % 2 ^ 16)) λ member.
          unless_error-Has (form_error major (e.a % 2 ^ 8) member.tag)
            (unless_error-Has (name_error (e.a % 2 ^ 8) member.name) (r.giving _)))

  dynamic_of-Has : (i : ℕ) → r.Has (dynamic_of i)
  unfolding dynamic_of
  dynamic_of-Has i = r.binding (r.finding i 0) λ e.
      if-Has (not (e.tag == tag_dynamic) && not (e.tag == tag_invoke_dynamic))
        (r.refusing not_dynamic) (r.binding (name_and_type_of-Has (e.b % 2 ^ 16)) λ nt. r.giving _)

  const_with-Has : (i major : ℕ) (e : RawEntry) → r.Has (const_with i major e)
  const_with-Has i major e = if-Has (is_word_tag e.tag) (r.giving _) (
      if-Has (is_wide_tag e.tag) (r.giving _) (
        if-Has (e.tag == tag_class)
          (if-Has (not (leb 49 major)) (r.refusing class_not_loadable)
            (r.binding (class_name_of-Has i) λ s. r.giving _))
          (if-Has (e.tag == tag_string) (r.binding (r.text_at (e.a % 2 ^ 16)) λ s. r.giving _) (
            if-Has (e.tag == tag_method_handle) (r.binding (handle_of-Has i major) λ h. r.giving _)
              (if-Has (e.tag == tag_method_type) (r.binding (method_type_of-Has i) λ s. r.giving _)
                (if-Has (e.tag == tag_dynamic) (r.binding (dynamic_of-Has i) λ d. r.giving _)
                  (r.refusing not_loadable)))))))

  pub const_of-Has : (i major : ℕ) → r.Has (const_of i major)
  unfolding const_of
  const_of-Has i major = r.binding (r.finding i 0) (const_with-Has i major)
