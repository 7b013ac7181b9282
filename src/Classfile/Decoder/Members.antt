-- ===== src/Classfile/Decoder/Members.antt =====
-- classfile/decoder.go and classfile/member.go: `members` and `methods`, and what they hoist from the
-- attributes.
use mocha.Prelude.{Bool, List, Option, [], false, none, some, true, ℕ}
use mocha.Classfile.Attr.{
  Attrs, Code, attr_then, code_attr, constant_value_attr, deprecated_attr, exceptions_attr,
  loc_method, no_attrs, signature_attr, synthetic_attr,
}
use mocha.Classfile.ConstPool.Resolve.{Const}
use mocha.Classfile.Decoder.{Context, D, finish, give, next_u2, rows, utf8, ◌>>=◌}
use mocha.Classfile.Decoder.Attributes.{attributes}

pub record Field : Type 0 where
  pub flags : ℕ
  pub name : List ℕ
  pub descriptor : List ℕ
  pub attrs : Attrs
  pub constant : Option Const
  pub signature : List ℕ
  pub is_deprecated : Bool
  pub is_synthetic : Bool

pub record Method : Type 0 where
  pub flags : ℕ
  pub name : List ℕ
  pub descriptor : List ℕ
  pub attrs : Attrs
  pub code : Option Code
  pub exceptions : List (List ℕ)
  pub signature : List ℕ
  pub is_deprecated : Bool
  pub is_synthetic : Bool

abbrev pub field_with : ℕ → List ℕ → List ℕ → Attrs → Field
field_with flags name descriptor ats = record {
  flags = flags;
  name = name;
  descriptor = descriptor;
  attrs = ats;
  constant = none;
  signature = [];
  is_deprecated = false;
  is_synthetic = false;
}

abbrev pub method_with : ℕ → List ℕ → List ℕ → Attrs → Method
method_with flags name descriptor ats = record {
  flags = flags;
  name = name;
  descriptor = descriptor;
  attrs = ats;
  code = none;
  exceptions = [];
  signature = [];
  is_deprecated = false;
  is_synthetic = false;
}

-- The type switch of `members`, over the attributes in order.
unfoldable pub hoist_field : Attrs → Field → Field
hoist_field no_attrs f = f
hoist_field (attr_then (constant_value_attr v) ats) f =
    hoist_field ats (record f { constant = some v })
hoist_field (attr_then (signature_attr v) ats) f = hoist_field ats (record f { signature = v })
hoist_field (attr_then deprecated_attr ats) f = hoist_field ats (record f { is_deprecated = true })
hoist_field (attr_then synthetic_attr ats) f = hoist_field ats (record f { is_synthetic = true })
hoist_field (attr_then _ ats) f = hoist_field ats f

-- The type switch of `methods`.
unfoldable pub hoist_method : Attrs → Method → Method
hoist_method no_attrs m = m
hoist_method (attr_then (code_attr c) ats) m = hoist_method ats (record m { code = some c })
hoist_method (attr_then (exceptions_attr cs) ats) m =
    hoist_method ats (record m { exceptions = cs })
hoist_method (attr_then (signature_attr v) ats) m = hoist_method ats (record m { signature = v })
hoist_method (attr_then deprecated_attr ats) m =
    hoist_method ats (record m { is_deprecated = true })
hoist_method (attr_then synthetic_attr ats) m = hoist_method ats (record m { is_synthetic = true })
hoist_method (attr_then _ ats) m = hoist_method ats m

-- Attributes of a member hold tables, and those hold none.
abbrev pub max_depth : ℕ
max_depth = 2

unfoldable pub field_info : Context → ℕ → D Field
unfolding ◌>>=◌ next_u2 utf8 attributes give hoist_field
field_info cx loc = do
  flags ← next_u2
  name_idx ← next_u2
  name ← utf8 name_idx
  descriptor_idx ← next_u2
  descriptor ← utf8 descriptor_idx
  ats ← attributes cx max_depth loc
  give (hoist_field ats (field_with flags name descriptor ats))

-- `members`
unfoldable pub members : Context → ℕ → D (List Field)
unfolding ◌>>=◌ next_u2 rows field_info finish
members cx loc = do n ← next_u2; fs ← rows n (field_info cx loc); finish fs

unfoldable pub method_info : Context → D Method
unfolding ◌>>=◌ next_u2 utf8 attributes give hoist_method
method_info cx = do
  flags ← next_u2
  name_idx ← next_u2
  name ← utf8 name_idx
  descriptor_idx ← next_u2
  descriptor ← utf8 descriptor_idx
  ats ← attributes cx max_depth loc_method
  give (hoist_method ats (method_with flags name descriptor ats))

-- `methods`
unfoldable pub methods : Context → D (List Method)
unfolding ◌>>=◌ next_u2 rows method_info finish
methods cx = do n ← next_u2; ms ← rows n (method_info cx); finish ms
