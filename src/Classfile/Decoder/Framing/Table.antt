-- ===== src/Classfile/Decoder/Framing/Table.antt =====
-- classfile/decoder.go: the loop of `attributes` follows the lengths that the file declares.
use mocha.Prelude.{
  List, Option, [], ap, none, ok, some, suc, sym, true, zero, ℕ, ◌++◌, ◌∙◌, ◌∷◌, ◌≡◌,
}
use mocha.Classfile.Attr.{Attr, Attrs, no_attrs, raws}
use mocha.Classfile.Decoder.{
  Context, D, Decoder, give, has_mode, keep_raw, next_bytes, next_u2, next_u4, reading, until_done,
  utf8, ◌>>=◌,
}
use mocha.Classfile.Decoder.Attributes.{attribute, attributes, kept, table, with_body, with_length}
use mocha.Classfile.Decoder.Checks.{finish-cases, resume-split, until_done-cases}
use mocha.Classfile.Decoder.Framing.{IsRawOf, attribute-aside, datas, datas-kept, utf8-aside}
use mocha.Classfile.Wire.{Reader, read_bytes, read_u2, read_u4}
use mathlib.Core.Path.{subst}

-- The bodies of a table of n attributes by their lengths alone, and where it ends.
unfoldable pub frames : ℕ → Reader → List (List ℕ) × Reader
frames zero r = ([], r)
frames (suc n) r =
    let (name_idx, r1) = read_u2 r in
    let (body_length, r2) = read_u4 r1 in
    let (body, r3) = read_bytes (some body_length) r2 in
    let (bodies, r4) = frames n r3 in (body ∷ bodies, r4)

module _ (cx : Context) (at : ℕ → D Attrs) where
  -- What a loop over n attributes gives, which the bodies `before` come before.
  Framed : List (List ℕ) → ℕ → Reader → Attrs → Decoder → Type 0
  Framed before n r ats d' =
      (d'.r ≡ (frames n r).1)
      × (has_mode cx.mode keep_raw ≡ true → datas (raws ats) ≡ before ++ (frames n r).0)

  FramedLoop : ℕ → D Attrs → Type 0
  FramedLoop n m =
      (d : Decoder) (ats : Attrs) (d' : Decoder)
      → m d ≡ (ok ats, d')
      → d'.r.err ≡ none
      → Framed [] n d.r ats d'

  kept-Framed :
      (o : Option Attr) (name body : List ℕ) (n : ℕ) (r : Reader) (ats : Attrs) (d : Decoder)
      → IsRawOf body o
      → Framed [] n r ats d
      → Framed (body ∷ []) n r (kept cx o name body ats) d
  unfolding Framed
  kept-Framed o name body n r ats d raw_of (end, held) =
      (end, λ keep. datas-kept cx o name body ats keep raw_of ∙ ap (◌∷◌ body) (held keep))

  with_body-Framed :
      (loc n : ℕ) (m : D Attrs) (name body : List ℕ) (d : Decoder) (ats : Attrs) (d' : Decoder)
      → FramedLoop n m
      → with_body cx at loc m name body d ≡ (ok ats, d')
      → d'.r.err ≡ none
      → Framed (body ∷ []) n d.r ats d'
  unfolding FramedLoop ◌>>=◌ give
  with_body-Framed loc n m name body d ats d' loop h clean =
      let (o, d1, one, h1) = resume-split _ (attribute cx at name body loc d) h in
      let (others, d2, two, h2) = resume-split _ (m d1) h1 in
      let same : d2 ≡ d' = cc in
      let same_ats : kept cx o name body others ≡ ats = cc in
      let (end, raw_of) = attribute-aside cx at name body loc d o d1 one in
      let framed = loop d1 others d2 two (ap (λ (u : Decoder). u.r.err) same ∙ clean) in
      let step = kept-Framed o name body n d1.r others d2 raw_of framed in
      subst (λ r. Framed (body ∷ []) n r ats d') end
        (subst (λ u. Framed (body ∷ []) n d1.r ats u) same
          (subst (λ a. Framed (body ∷ []) n d1.r a d2) same_ats step))

  -- A step that reads a number from the cursor, and one that reads a body.
  abbrev after_bytes : ℕ → Reader → List ℕ × Reader
  after_bytes k r = read_bytes (some k) r

  with_length-Framed :
      (loc n i k : ℕ) (m : D Attrs) (d : Decoder) (ats : Attrs) (d' : Decoder)
      → FramedLoop n m
      → with_length cx at loc m i k d ≡ (ok ats, d')
      → d'.r.err ≡ none
      → Framed ((after_bytes k d.r).0 ∷ []) n (after_bytes k d.r).1 ats d'
  unfolding ◌>>=◌ next_bytes reading
  with_length-Framed loc n i k m d ats d' loop h clean =
      let (name, d1, one, h1) = resume-split _ (utf8 i d) h in
      let body = (after_bytes k d1.r).0 in
      let d2 = record d1 { r = (after_bytes k d1.r).1 } in
      let (clean2, h2) = until_done-cases no_attrs (with_body cx at loc m name body) d2 h1 clean in
      subst (λ r. Framed ((after_bytes k r).0 ∷ []) n (after_bytes k r).1 ats d')
        (utf8-aside cx at i d name d1 one)
        (with_body-Framed loc n m name body d2 ats d' loop h2 clean)

  table-FramedLoop : (loc n : ℕ) → FramedLoop n (table cx at loc n)
  unfolding FramedLoop table Framed frames give ◌>>=◌ next_u2 next_u4 reading datas raws
  table-FramedLoop loc zero d ats d' h clean =
      let same : no_attrs ≡ ats = cc in (cc, λ keep. ap (λ (a : Attrs). datas (raws a)) (sym same))
  table-FramedLoop loc (suc n) d ats d' h clean =
      let (clean1, h1) =
        until_done-cases no_attrs
          (do
            i ← next_u2
            k ← next_u4
            until_done no_attrs (with_length cx at loc (table cx at loc n) i k))
          d h clean in
      let (i, r1) = read_u2 d.r in
      let (k, r2) = read_u4 r1 in
      let d2 = record d { r = r2 } in
      let (clean2, h2) =
        until_done-cases no_attrs (with_length cx at loc (table cx at loc n) i k) d2 h1 clean in
      with_length-Framed loc n i k (table cx at loc n) d2 ats d' (table-FramedLoop loc n) h2 clean

-- Where `attributes` succeeds, it has moved over its table exactly as the count and the lengths in the file
-- say, whatever it made of the bodies, to a place with no error; and under KeepRaw the raw attributes of
-- its result are the bodies of the table, each kept once and in the order of the file.
pub attributes-frames :
    (cx : Context) (depth loc : ℕ) (d : Decoder) (ats : Attrs) (d' : Decoder)
    → attributes cx (suc depth) loc d ≡ (ok ats, d')
    → (d'.r.err ≡ none)
      × (d'.r ≡ (frames (read_u2 d.r).0 (read_u2 d.r).1).1)
      × (has_mode cx.mode keep_raw ≡ true
          → datas (raws ats) ≡ (frames (read_u2 d.r).0 (read_u2 d.r).1).0)
unfolding attributes ◌>>=◌ next_u2 reading FramedLoop Framed
attributes-frames cx depth loc d ats d' h =
    let (n, r1) = read_u2 d.r in
    let d1 = record d { r = r1 } in
    let (ats1, d2, one, h1) = resume-split _ (table cx (attributes cx depth) loc n d1) h in
    let (clean, value, same) = finish-cases ats1 d2 h1 in
    let (end, held) = table-FramedLoop cx (attributes cx depth) loc n d1 ats1 d2 one clean in
    (
      ap (λ (u : Decoder). u.r.err) same ∙ clean,
      ap (λ (u : Decoder). u.r) same ∙ end,
      λ keep. ap (λ (a : Attrs). datas (raws a)) value ∙ held keep,
    )
