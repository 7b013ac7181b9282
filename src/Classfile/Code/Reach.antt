-- ===== src/Classfile/Code/Reach.antt =====
-- classfile/codewriter.go: which branches `resolve` widens, in terms of offsets in the code.
use mocha.Prelude.{
  Bool, List, [], arith, false, leb, none, not, some, ap, refl, ℕ, ◌∙◌, ◌&&◌, ◌+◌, ◌<◌, ◌==◌, ◌||◌,
  ◌∷◌, ◌≡◌,
}
use mocha.Classfile.Code.{Branch, CodeWriter, Label, label_at}
use mocha.Classfile.Code.Delta.{member}
use mocha.Classfile.Code.Resolve.{is_far, resolve}
use mocha.Classfile.Code.Widening.{Placed, far_any, far_member, is_far_label, resolve-far_any}

-- Every branch goes to a label that has been placed, and the offsets of both are below 2 ^ 31, as
-- those of an `int32` are.
abbrev pub Addressed : List Label → List Branch → Type 0
Addressed labels [] = Unit
Addressed labels (br ∷ brs) =
    ((pc : ℕ) × ((label_at labels br.label).pc ≡ some pc)
      × (pc < 2147483648)
      × (br.at < 2147483648))
    × Addressed labels brs

-- A signed 16-bit offset from `at` leads up to 32767 bytes forward and 32768 bytes back.
abbrev pub reaches : ℕ → ℕ → Bool
reaches at pc = leb pc (at + 32767) && leb at (pc + 32768)

-- A short branch whose label its offset does not reach.
abbrev pub is_short_of : List Label → Branch → Bool
is_short_of labels br = elim (label_at labels br.label).pc [
  | none ↦ false
  | some pc ↦ not br.wide && not (reaches br.at pc)
]

abbrev pub some_short_of : List Label → List Branch → Bool
some_short_of labels [] = false
some_short_of labels (br ∷ brs) = is_short_of labels br || some_short_of labels brs

-- Whether the ordinal is that of such a branch.
abbrev pub is_ordinal_of : List Label → ℕ → List Branch → Bool
is_ordinal_of labels ord [] = false
is_ordinal_of labels ord (br ∷ brs) =
    (is_short_of labels br && ord == br.ord) || is_ordinal_of labels ord brs

is_far-reaches :
    (br : Branch) (pc : ℕ)
    → pc < 2147483648
    → br.at < 2147483648
    → is_far br pc ≡ (not br.wide && not (reaches br.at pc))
is_far-reaches br pc small at_small = ground arith

is_far_label-is_short_of :
    (labels : List Label) (br : Branch) (pc : ℕ)
    → (label_at labels br.label).pc ≡ some pc
    → pc < 2147483648
    → br.at < 2147483648
    → is_far_label labels br ≡ is_short_of labels br
is_far_label-is_short_of labels br pc e small at_small =
    rw (e, is_far_label, is_short_of) (is_far-reaches br pc small at_small)

far_any-some_short_of :
    (labels : List Label) (brs : List Branch)
    → Addressed labels brs
    → far_any labels brs ≡ some_short_of labels brs
far_any-some_short_of labels [] near = refl
far_any-some_short_of labels (br ∷ brs) ((pc, e, small, at_small), near) =
    let here = is_far_label-is_short_of labels br pc e small at_small in
    let rest = far_any-some_short_of labels brs near in
    ap (λ (b : Bool). b || far_any labels brs) here
    ∙ ap (λ (b : Bool). is_short_of labels br || b) rest

far_member-is_ordinal_of :
    (labels : List Label) (ord : ℕ) (brs : List Branch)
    → Addressed labels brs
    → far_member labels ord brs ≡ is_ordinal_of labels ord brs
far_member-is_ordinal_of labels ord [] near = refl
far_member-is_ordinal_of labels ord (br ∷ brs) ((pc, e, small, at_small), near) =
    let here = is_far_label-is_short_of labels br pc e small at_small in
    let rest = far_member-is_ordinal_of labels ord brs near in
    ap (λ (b : Bool). (b && ord == br.ord) || far_member labels ord brs) here
    ∙ ap (λ (b : Bool). (is_short_of labels br && ord == br.ord) || b) rest

Addressed-Placed :
    (labels : List Label) (brs : List Branch) → Addressed labels brs → Placed labels brs
Addressed-Placed labels [] near = tt
Addressed-Placed labels (br ∷ brs) ((pc, e, small, at_small), near) =
    ((pc, e), Addressed-Placed labels brs near)

-- If all branches go to placed labels, and all these offsets are below 2 ^ 31, then `resolve` asks for
-- another pass exactly when the label of some short branch is more than 32767 bytes after the branch
-- or more than 32768 bytes before it, and it adds the ordinals of these branches, and no others, to
-- those that are widened.
pub resolve_widens :
    (c : CodeWriter)
    → Addressed c.labels c.branches
    → ((resolve c).0 ≡ some_short_of c.labels c.branches)
      × ((ord : ℕ)
          → member ord (resolve c).1.widen
            ≡ (is_ordinal_of c.labels ord c.branches || member ord c.widen))
resolve_widens c near =
    let (asks, widens) = resolve-far_any c (Addressed-Placed c.labels c.branches near) in
    (
      asks ∙ far_any-some_short_of c.labels c.branches near,
      λ ord.
          widens ord
          ∙ ap (λ (b : Bool). b || member ord c.widen)
              (far_member-is_ordinal_of c.labels ord c.branches near),
    )
