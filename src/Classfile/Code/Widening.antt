-- ===== src/Classfile/Code/Widening.antt =====
-- classfile/codewriter.go: which branches `resolve` widens, and when it asks for another pass.
use mocha.Prelude.{
  Bool, Bool-cases, List, Option, Option-cases, [], ap, arith, false, inl, inr, none, refl, some,
  suc, sym, true, ℕ, ◌&&◌, ◌==◌, ◌||◌, ◌∙◌, ◌∷◌, ◌≡◌,
}
use mocha.Classfile.Code.{
  Branch, CodeError, CodeWriter, Label, SwitchRec, fail, label_at, never_placed,
}
use mocha.Classfile.Code.Delta.{member}
use mocha.Classfile.Code.Instructions.{is_between}
use mocha.Classfile.Code.Resolve.{
  after_branches, distance, is_far, patch_branch, resolve, resolve_branches, resolve_switch,
  resolve_switches, resolve_targets,
}
use mocha.Jvm.Op.{goto_op, wide}
use mocha.Jvm.Op

-- Every branch goes to a label that has been placed.
abbrev pub Placed : List Label → List Branch → Type 0
Placed labels [] = Unit
Placed labels (br ∷ brs) =
    ((pc : ℕ) × ((label_at labels br.label).pc ≡ some pc)) × Placed labels brs

-- Whether a branch of the list with this ordinal is short, and its label too far for 16 bits.
abbrev pub is_far_label : List Label → Branch → Bool
is_far_label labels br = elim (label_at labels br.label).pc [
  | none ↦ false
  | some pc ↦ is_far br pc
]

abbrev pub far_any : List Label → List Branch → Bool
far_any labels [] = false
far_any labels (br ∷ brs) = is_far_label labels br || far_any labels brs

abbrev pub far_member : List Label → ℕ → List Branch → Bool
far_member labels ord [] = false
far_member labels ord (br ∷ brs) =
    (is_far_label labels br && ord == br.ord) || far_member labels ord brs

-- A Boolean test of two outcomes, one of which keeps the labels and the widened branches.
abbrev Widens : Branch → Bool → CodeWriter → CodeWriter → Type 0
Widens br far c d =
    (d.labels ≡ c.labels)
    × ((ord : ℕ) → member ord d.widen ≡ ((far && ord == br.ord) || member ord c.widen))

patch_branch_lem :
    (br : Branch) (pc : ℕ) (c : CodeWriter) → Widens br (is_far br pc) c (patch_branch br pc c)
patch_branch_lem br pc c = elim (Bool-cases br.wide) [
  | inl w ↦ rw w (elim (Bool-cases (br.op == Op.goto_op)) [
    | inl g ↦ rw g (refl, λ ord. refl)
    | inr g ↦ rw g (refl, λ ord. refl)
  ])
  | inr w ↦ elim (Bool-cases (is_between 32 32768 32767 (distance pc br.at))) [
    | inl g ↦ rw (w, g) (refl, λ ord. refl)
    | inr g ↦ rw (w, g) (refl, λ ord. refl)
  ]
]

or_first : (a b c : Bool) → (b || (a || c)) ≡ ((a || b) || c)
or_first true true c = refl
or_first true false c = refl
or_first false b c = refl

or_assoc : (a b c : Bool) → ((a || b) || c) ≡ (a || (b || c))
or_assoc true b c = refl
or_assoc false b c = refl

resolve_branches_lem :
    (labels : List Label) (brs : List Branch) (again : Bool) (c : CodeWriter)
    → c.labels ≡ labels
    → Placed labels brs
    → ((resolve_branches brs again c).0 ≡ some (again || far_any labels brs))
      × ((ord : ℕ)
          → member ord (resolve_branches brs again c).1.widen
            ≡ (far_member labels ord brs || member ord c.widen))
unfolding resolve_branches
resolve_branches_lem labels [] again c same placed = (ap some (ground arith), λ ord. refl)
resolve_branches_lem labels (br ∷ brs) again c same ((pc, e), placed) =
    let (kept, wider) = patch_branch_lem br pc c in
    let here : (label_at c.labels br.label).pc ≡ some pc =
      ap (λ (ls : List Label). (label_at ls br.label).pc) same ∙ e in
    let far : is_far_label labels br ≡ is_far br pc = rw (e, is_far_label) refl in
    let (asks, widens) =
      resolve_branches_lem labels brs (again || is_far br pc) (patch_branch br pc c) (kept ∙ same)
        placed in
    rw (here, resolve_branches)
      (
        asks
            ∙ ap some (
                or_assoc again (is_far br pc) (far_any labels brs)
                ∙ ap (λ (b : Bool). again || (b || far_any labels brs)) (sym far)),
        λ ord.
            widens ord
            ∙ ap (λ (b : Bool). far_member labels ord brs || b) (wider ord)
            ∙ or_first (is_far br pc && ord == br.ord) (far_member labels ord brs)
                (member ord c.widen)
            ∙ ap
                (λ (b : Bool).
                  ((b && ord == br.ord) || far_member labels ord brs) || member ord c.widen)
                (sym far),
      )

fail-widen : (e : CodeError) (c : CodeWriter) → (fail e c).widen ≡ c.widen
unfolding fail
fail-widen e c =
    elim c.err
      as (λ o.
        let d : CodeWriter = elim o [ none ↦ record c { err = some e } | some x ↦ c ] in
        d.widen ≡ c.widen) [ none ↦ refl | some x ↦ refl ]

resolve_targets-widen :
    (s : SwitchRec) (i : ℕ) (ts : List ℕ) (c : CodeWriter)
    → (resolve_targets s i ts c).1.widen ≡ c.widen
unfolding resolve_targets
resolve_targets-widen s i [] c = refl
resolve_targets-widen s i (t ∷ ts) c = elim (Option-cases (label_at c.labels t).pc) [
  | inl e ↦ rw (e, resolve_targets) (fail-widen never_placed c)
  | inr (pc, e) ↦ rw (e, resolve_targets) (resolve_targets-widen s (suc i) ts _)
]

resolve_switch-widen : (s : SwitchRec) (c : CodeWriter) → (resolve_switch s c).1.widen ≡ c.widen
unfolding resolve_switch
resolve_switch-widen s c = elim (Option-cases (label_at c.labels s.def).pc) [
  | inl e ↦ rw (e, resolve_switch) (fail-widen never_placed c)
  | inr (pc, e) ↦ rw (e, resolve_switch) (resolve_targets-widen s 0 s.targets _)
]

resolve_switches-widen :
    (ss : List SwitchRec) (c : CodeWriter) → (resolve_switches ss c).widen ≡ c.widen
unfolding resolve_switches
resolve_switches-widen [] c = refl
resolve_switches-widen (s ∷ ss) c = elim (Bool-cases (resolve_switch s c).0) [
  | inl e ↦ rw (e, resolve_switches) (resolve_switches-widen ss _ ∙ resolve_switch-widen s c)
  | inr e ↦ rw (e, resolve_switches) (resolve_switch-widen s c)
]

after_branches_lem :
    (o : Option Bool) (d : CodeWriter) (b : Bool)
    → o ≡ some b
    → ((after_branches (o, d)).0 ≡ b) × ((after_branches (o, d)).1.widen ≡ d.widen)
after_branches_lem none d b e = absurd (ground arith)
after_branches_lem (some true) d b e = (ground arith, refl)
after_branches_lem (some false) d b e = (ground arith, resolve_switches-widen d.switches d)

-- If all branches go to placed labels, then `resolve` asks for another pass exactly when `is_far` holds
-- of some branch, and it widens these branches in addition.
pub resolve-far_any :
    (c : CodeWriter)
    → Placed c.labels c.branches
    → ((resolve c).0 ≡ far_any c.labels c.branches)
      × ((ord : ℕ)
          → member ord (resolve c).1.widen
            ≡ (far_member c.labels ord c.branches || member ord c.widen))
unfolding resolve
resolve-far_any c placed =
    let (asks, widens) = resolve_branches_lem c.labels c.branches false c refl placed in
    let (answer, kept) = after_branches_lem _ (resolve_branches c.branches false c).1 _ asks in
    (answer, λ ord. ap (member ord) kept ∙ widens ord)
