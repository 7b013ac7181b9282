-- ===== src/Classfile/Code/Fits.antt =====
-- classfile/codewriter.go: the operand stack and the locals stay within their limits, whatever the
-- closure does.
use mocha.Prelude.{
  Bool, List, Option, [], ap, arith, false, if◌then◌else◌, inl, inr, length, ltb, none, not, refl,
  set, some, suc, sym, true, zero, ℕ, ◌&&◌, ◌++◌, ◌+◌, ◌-◌, ◌==◌, ◌∙◌, ◌∷◌, ◌≡◌, ◌≤◌, ◌⊎◌,
}
use mocha.Classfile.Code.{
  CodeError, CodeWriter, Label, M, branch_depth, enter, fail, label_at, locals_limit, mark,
  new_label, note_depth, place, placed_twice, pop, push, stack_limit, unplaced, use_local,
}

-- The bounds that hold as long as no error was noted.
pub record Fits (c : CodeWriter) : Type 0 where
  pub depth_ok : c.depth ≤ c.max_stack
  pub stack_ok : c.max_stack ≤ 65535
  pub locals_ok : c.max_locals ≤ 65535
  pub labels_ok : (l n : ℕ) → (label_at c.labels l).depth ≡ some n → n ≤ c.max_stack

abbrev pub Inv : CodeWriter → Type 0
Inv c = c.err ≡ none → Fits c

abbrev Keeps : M → Type 0
Keeps f = (c : CodeWriter) → Inv c → Inv (f c)

label_at-set :
    (xs : List Label) (i j : ℕ) (v : Label)
    → (label_at (set xs i v) j ≡ v) ⊎ (label_at (set xs i v) j ≡ label_at xs j)
unfolding label_at
label_at-set [] i j v = inr refl
label_at-set (x ∷ xs) zero zero v = inl refl
label_at-set (x ∷ xs) zero (suc j) v = inr refl
label_at-set (x ∷ xs) (suc i) zero v = inr refl
label_at-set (x ∷ xs) (suc i) (suc j) v = label_at-set xs i j v

label_at-append : (xs : List Label) (j : ℕ) → label_at (xs ++ (unplaced ∷ [])) j ≡ label_at xs j
unfolding label_at
label_at-append [] zero = refl
label_at-append [] (suc j) = refl
label_at-append (x ∷ xs) zero = refl
label_at-append (x ∷ xs) (suc j) = label_at-append xs j

-- A failed writer has an error.
pub failed : (e : CodeError) (c : CodeWriter) → ¬ ((fail e c).err ≡ none)
unfolding fail
failed e c h = ground arith

pub fail-Inv : (e : CodeError) (c : CodeWriter) → Inv (fail e c)
fail-Inv e c h = absurd (failed e c h)

pub if-Inv :
    (b : Bool) {c d : CodeWriter}
    → (b ≡ true → Inv c)
    → (b ≡ false → Inv d)
    → Inv (if b then c else d)
if-Inv true p q = p refl
if-Inv false p q = q refl

-- Other bounds that hold of the writer `d`, whose labels are those of `c`.
pub same_labels :
    (c d : CodeWriter)
    → d.labels ≡ c.labels
    → c.max_stack ≤ d.max_stack
    → d.depth ≤ d.max_stack
    → d.max_stack ≤ 65535
    → d.max_locals ≤ 65535
    → Fits c
    → Fits d
same_labels c d e up depth stack locals fits = record {
  depth_ok = depth;
  stack_ok = stack;
  locals_ok = locals;
  labels_ok = λ l m h. omega (arith, fits.labels_ok l m (rw (← e) h), up);
}

pub push-Keeps : (n : ℕ) → Keeps (push n)
unfolding push
push-Keeps n c inv =
    let moved : CodeWriter = record c { depth = c.depth + n } in
    let raised : CodeWriter = record moved { max_stack = c.depth + n } in
    if-Inv (ltb c.max_stack (c.depth + n))
      (λ up.
        if-Inv (ltb stack_limit (c.depth + n)) {d = raised} (λ over. fail-Inv _ moved)
          λ fits h.
            same_labels c raised refl (ground arith) (omega arith) (ground arith) (inv h).locals_ok
              (inv h))
      λ fits h.
        same_labels c moved refl (omega arith) (ground arith) (inv h).stack_ok (inv h).locals_ok
          (inv h)

pub pop-Keeps : (n : ℕ) → Keeps (pop n)
unfolding pop
pop-Keeps n c inv =
    let moved : CodeWriter = record c { depth = c.depth - n } in
    if-Inv (ltb c.depth n) {d = moved} (λ b h. absurd (failed _ c h))
      λ b h.
        same_labels c moved refl (omega arith) (omega (arith, (inv h).depth_ok)) (inv h).stack_ok
          (inv h).locals_ok (inv h)

pub use_local-Keeps : (slot width : ℕ) → Keeps (use_local slot width)
unfolding use_local
use_local-Keeps slot width c inv =
    let grown : CodeWriter = record c { max_locals = slot + width } in
    if-Inv (ltb locals_limit slot) (λ b. fail-Inv _ c)
      λ a.
        if-Inv (ltb locals_limit (slot + width)) (λ b. fail-Inv _ c)
          λ b.
            if-Inv (ltb c.max_locals (slot + width)) {c = grown}
              (λ d h.
                same_labels c grown refl (omega arith) (inv h).depth_ok (inv h).stack_ok
                  (ground arith) (inv h))
              λ d. inv

-- One label is set, to a label whose depth is within the bound.
pub set_label :
    (c d : CodeWriter) (l : ℕ) (x : Label)
    → d.labels ≡ set c.labels l x
    → ((n : ℕ) → x.depth ≡ some n → n ≤ c.max_stack)
    → d.depth ≤ c.max_stack
    → d.max_stack ≡ c.max_stack
    → d.max_locals ≡ c.max_locals
    → Fits c
    → Fits d
set_label c d l x e new e1 e2 e3 fits = record {
  depth_ok = omega (arith, e1, e2);
  stack_ok = omega (arith, fits.stack_ok, e2);
  locals_ok = omega (arith, fits.locals_ok, e3);
  labels_ok = λ k n h. elim (label_at-set c.labels l k x) [
    | inl here ↦ omega (arith, e2, new n (ap (λ (y : Label). y.depth) (sym here) ∙ rw (← e) h))
    | inr there ↦
        omega (arith, e2, fits.labels_ok k n (ap (λ (y : Label). y.depth) (sym there) ∙ rw (← e) h))
  ];
}

pub note_depth-Keeps : (l : ℕ) → Keeps (note_depth l)
unfolding note_depth
note_depth-Keeps l c inv =
    elim (label_at c.labels l).depth
      as (λ o. Inv (elim o [
        | none ↦ record c {
          labels = set c.labels l (record (label_at c.labels l) { depth = some c.depth });
        }
        | some n ↦ if not (n == c.depth) then fail branch_depth c else c
      ])) [
        | none ↦ λ h.
            set_label c _ l (record (label_at c.labels l) { depth = some c.depth }) refl
              (λ n e. ground (arith, (inv h).depth_ok)) (inv h).depth_ok refl refl (inv h)
        | some n ↦ if-Inv (not (n == c.depth)) (λ b. fail-Inv _ c) λ b. inv
      ]

-- What is recorded of the depth of a label that is entered.
enter-Keeps :
    (l : ℕ) (o : Option ℕ) (c : CodeWriter)
    → ((n : ℕ) → c.err ≡ none → o ≡ some n → n ≤ c.max_stack)
    → Inv c
    → Inv (enter l o c)
unfolding enter
enter-Keeps l (some n) c known inv =
    let entered : CodeWriter = record c { depth = n; reachable = true } in
    if-Inv (c.reachable && not (c.depth == n)) {d = entered} (λ b. fail-Inv _ c)
      λ b h.
        same_labels c entered refl (omega arith) (known n h refl) (inv h).stack_ok (inv h).locals_ok
          (inv h)
enter-Keeps l none c known inv =
    let here : Label = record { pc = (label_at c.labels l).pc; depth = some c.depth } in
    let entered : CodeWriter = record c { labels = set c.labels l here; reachable = true } in
    if-Inv c.reachable {c = entered}
      (λ b h.
        set_label c entered l here refl (λ n e. ground (arith, (inv h).depth_ok)) (inv h).depth_ok
          refl refl (inv h))
      λ b. fail-Inv _ c

place-Keeps : (l : ℕ) → Keeps (place l)
place-Keeps l c inv h =
    set_label c (place l c) l (record (label_at c.labels l) { pc = some (length c.w) }) refl
      ((inv h).labels_ok l) (inv h).depth_ok refl refl (inv h)

pub mark-Keeps : (l : ℕ) → Keeps (mark l)
unfolding mark
mark-Keeps l c inv =
    elim (label_at c.labels l).pc
      as (λ o. Inv (elim o [
        | some n ↦ fail placed_twice c
        | none ↦ enter l (label_at c.labels l).depth (place l c)
      ])) [
        | some n ↦ fail-Inv _ c
        | none ↦
            enter-Keeps l _ (place l c) (λ n h e. (inv h).labels_ok l n e) (place-Keeps l c inv)
      ]

pub new_label-Keeps : Keeps (λ c. (new_label c).1)
unfolding new_label
new_label-Keeps c inv h = record {
  depth_ok = (inv h).depth_ok;
  stack_ok = (inv h).stack_ok;
  locals_ok = (inv h).locals_ok;
  labels_ok = λ l n e.
      (inv h).labels_ok l n (ap (λ (x : Label). x.depth) (sym (label_at-append c.labels l)) ∙ e);
}
