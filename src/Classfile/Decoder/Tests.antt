-- ===== src/Classfile/Decoder/Tests.antt =====
-- Runs of the decoder on small files, and the theorems at concrete inputs.
use mocha.Prelude.{
  List, Option, Result, [], err, none, ok, refl, some, stuck, true, ℕ, ◌++◌, ◌∷◌, ◌≡◌, ◌≢◌,
}
use mocha.Classfile.Attr.{
  Attrs, ascii, attr_then, loc_class, no_attrs, raw_attr, raws, source_file_attr,
}
use mocha.Classfile.ConstPool.{ConstPool}
use mocha.Classfile.Decoder.{Context, DecodeError, Decoder, keep_raw, left_over, trailing}
use mocha.Classfile.Decoder.Attributes.{attribute, attributes}
use mocha.Classfile.Decoder.ClassFile.{Class, class_with, read}
use mocha.Classfile.Decoder.Ends.Read.{read-ne-stuck}
use mocha.Classfile.Decoder.Framing.{datas}
use mocha.Classfile.Decoder.Framing.Table.{attributes-frames, frames}
use mocha.Classfile.Decoder.LeftOver.Attribute.{attribute-left_over}
use mocha.Classfile.Wire.{Reader, SyntaxError}

-- `java/lang/Object` alone, at major 52, with the attributes given as bytes and counted.
abbrev object_file : List ℕ → List ℕ
object_file tail =
    (0xCA ∷ 0xFE ∷ 0xBA ∷ 0xBE ∷ 0 ∷ 0 ∷ 0 ∷ 52 ∷ 0 ∷ 4 ∷ 1 ∷ 0 ∷ 1 ∷ b'A' ∷ 7 ∷ 0 ∷ 1 ∷ [])
    ++ (1 ∷ 0 ∷ 10 ∷ [])
    ++ ascii "SourceFile"
    ++ (0 ∷ 0x21 ∷ 0 ∷ 2 ∷ 0 ∷ 2 ∷ 0 ∷ 0 ∷ 0 ∷ 0 ∷ 0 ∷ 0 ∷ [])
    ++ tail

abbrev source_file_table : List ℕ
source_file_table = 0 ∷ 1 ∷ 0 ∷ 3 ∷ 0 ∷ 0 ∷ 0 ∷ 2 ∷ 0 ∷ 1 ∷ []

abbrev attrs_of : Result DecodeError Class → Option Attrs
attrs_of (ok c) = some c.attrs
attrs_of _ = none

read_plain :
    attrs_of (read (object_file source_file_table) 0)
    ≡ some (attr_then (source_file_attr (b'A' ∷ [])) no_attrs)
unfolding read class_with
read_plain = refl

read_raw :
    attrs_of (read (object_file source_file_table) keep_raw)
    ≡ some (
        attr_then
          (source_file_attr (b'A' ∷ []))
          (attr_then (raw_attr (ascii "SourceFile") (0 ∷ 1 ∷ [])) no_attrs))
unfolding read class_with
read_raw = refl

read_trailing : read (object_file (0 ∷ 0 ∷ 7 ∷ [])) 0 ≡ err (trailing 44)
unfolding read class_with
read_trailing = refl

-- A pool of one text, `A`.
abbrev one_text : ConstPool
one_text = record {
  entries =
      record { tag = 0; a = 0; b = 0 }
      ∷ record { tag = 1; a = 0; b = 1 }
      ∷ record { tag = 1; a = 1; b = 10 }
      ∷ [];
  src = b'A' ∷ ascii "SourceFile";
  strs = none ∷ none ∷ none ∷ [];
  bsms = [];
}

abbrev kept_texts : ConstPool
kept_texts = record one_text { strs = none ∷ some (b'A' ∷ []) ∷ none ∷ [] }

abbrev both_texts : ConstPool
both_texts = record one_text { strs = none ∷ some (b'A' ∷ []) ∷ some (ascii "SourceFile") ∷ [] }

abbrev plain_mode : Context
plain_mode = record { major = 52; mode = 0 }

abbrev raw_mode : Context
raw_mode = record { major = 52; mode = 8 }

abbrev at_table : ConstPool → ℕ → Decoder
at_table p off = record {
  r = record { b = 0 ∷ 1 ∷ 0 ∷ 2 ∷ 0 ∷ 0 ∷ 0 ∷ 2 ∷ 0 ∷ 1 ∷ []; off = off; err = none };
  pool = p;
}

attribute-left_over_example :
    (attribute plain_mode
      (attributes plain_mode 1)
      (ascii "SourceFile")
      (0 ∷ 1 ∷ 9 ∷ [])
      loc_class
      (at_table one_text 0)).0
    ≡ err (left_over 2 1)
unfolding attribute
attribute-left_over_example =
    attribute-left_over plain_mode 1 loc_class (ascii "SourceFile") (0 ∷ 1 ∷ []) (9 ∷ [])
      (at_table one_text 0) (source_file_attr (b'A' ∷ [])) (at_table kept_texts 0) refl refl
      (λ e. cc)

attributes-frames_example :
    ◌≡◌ {A = Option SyntaxError} none none
    × (◌≡◌ {A = Reader} (at_table both_texts 10).r (frames 1 (at_table one_text 2).r).1)
    × (true ≡ true → (0 ∷ 1 ∷ []) ∷ [] ≡ (frames 1 (at_table one_text 2).r).0)
unfolding attributes frames datas raws
attributes-frames_example =
    attributes-frames raw_mode 1 loc_class (at_table one_text 0)
      (attr_then (source_file_attr (b'A' ∷ []))
        (attr_then (raw_attr (ascii "SourceFile") (0 ∷ 1 ∷ [])) no_attrs))
      (at_table both_texts 10) refl

read-ne-stuck_example : read (object_file source_file_table) 0 ≢ stuck
read-ne-stuck_example = read-ne-stuck (object_file source_file_table) 0
