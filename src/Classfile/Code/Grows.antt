-- ===== src/Classfile/Code/Grows.antt =====
-- classfile/codewriter.go: how the branches of a closure are numbered, and that no error is lost.
use mocha.Prelude.{
  List, [], ap, append-nil, append_assoc, arith, length, length-append, refl, some, suc, sym, ℕ,
  ◌++◌, ◌+◌, ◌∙◌, ◌∷◌, ◌≡◌,
}
use mocha.Classfile.Code.{
  Branch, CodeError, CodeWriter, M, fail, mark, new_label, note_depth, pop, push, terminate,
  use_local, write_u1, write_u2, write_u4,
}
use mocha.Classfile.Code.Branches.{branch, branch_form, record_branch, try_catch}
use mocha.Classfile.Code.Calls.{Steps}
use mocha.Classfile.Code.Delta.{member}
use mocha.Classfile.Code.Kept.{LabelRules}
use mocha.Classfile.Code.Kept.Branches.{branch_form-Keeps}
use mocha.Classfile.Code.Kept.Runs.{Steps-Inv}
use mocha.Classfile.Code.Quiet.{Quiet, Quiet-refl, mark-Quiet, quiet_rules, try_catch-Quiet}

-- Branches with the ordinals from `k` on, long where the ordinal is widened.
abbrev pub Numbered : ℕ → List ℕ → List Branch → Type 0
Numbered k widen [] = Unit
Numbered k widen (br ∷ brs) = (br.ord ≡ k) × (br.wide ≡ member k widen) × Numbered (suc k) widen brs

-- From `c` to `d` bytes and numbered branches are appended, and the first error stays.
pub record Grows (c d : CodeWriter) : Type 0 where
  pub widen_eq : d.widen ≡ c.widen
  pub first : (e : CodeError) → c.err ≡ some e → d.err ≡ some e
  pub more : List ℕ
  pub appends : d.w ≡ c.w ++ more
  pub fresh : List Branch
  pub adds : d.branches ≡ c.branches ++ fresh
  pub numbered : Numbered (length c.branches) c.widen fresh

Numbered-append :
    (k : ℕ) (widen : List ℕ) (brs : List Branch) (br : Branch)
    → Numbered k widen brs
    → br.ord ≡ k + length brs
    → br.wide ≡ member (k + length brs) widen
    → Numbered k widen (brs ++ (br ∷ []))
Numbered-append k widen [] br good number form =
    (omega (arith, number), form ∙ ap (λ (n : ℕ). member n widen) (omega arith), tt)
Numbered-append k widen (b ∷ brs) br (is_k, is_wide, good) number form =
    let next : k + length (b ∷ brs) ≡ suc k + length brs = omega arith in
    (
      is_k,
      is_wide,
      Numbered-append (suc k) widen brs br good (number ∙ next)
          (form ∙ ap (λ (n : ℕ). member n widen) next),
    )

Grows-refl : (c : CodeWriter) → Grows c c
Grows-refl c = record {
  widen_eq = refl;
  first = λ e h. h;
  more = [];
  appends = sym (append-nil c.w);
  fresh = [];
  adds = sym (append-nil c.branches);
  numbered = tt;
}

new_label-Quiet : (c : CodeWriter) → Quiet c (new_label c).1
unfolding new_label
new_label-Quiet c = record {
  widen_eq = refl;
  branches_eq = refl;
  first = λ e h. h;
  more = [];
  appends = sym (append-nil c.w);
}

module _ (c0 : CodeWriter) where
  then_quiet : (c d : CodeWriter) → Grows c0 c → Quiet c d → Grows c0 d
  then_quiet c d grows quiet = record {
    widen_eq = quiet.widen_eq ∙ grows.widen_eq;
    first = λ e h. quiet.first e (grows.first e h);
    more = grows.more ++ quiet.more;
    appends =
        quiet.appends
        ∙ ap (λ (w : List ℕ). w ++ quiet.more) grows.appends
        ∙ append_assoc c0.w grows.more quiet.more;
    fresh = grows.fresh;
    adds = quiet.branches_eq ∙ grows.adds;
    numbered = grows.numbered;
  }

  -- A branch is recorded with the number of those before it, in the form that was decided for it.
  record_branch-Grows :
      (br : Branch) (c : CodeWriter)
      → br.ord ≡ length c.branches
      → br.wide ≡ member (length c.branches) c.widen
      → Grows c0 c
      → Grows c0 (record_branch br c)
  record_branch-Grows br c number form grows =
      let count : length c.branches ≡ length c0.branches + length grows.fresh =
        omega (arith, ap length grows.adds, length-append c0.branches grows.fresh) in
      record {
        widen_eq = grows.widen_eq;
        first = grows.first;
        more = grows.more;
        appends = grows.appends;
        fresh = grows.fresh ++ (br ∷ []);
        adds =
            ap (λ (bs : List Branch). bs ++ (br ∷ [])) grows.adds
            ∙ append_assoc c0.branches grows.fresh (br ∷ []);
        numbered =
            Numbered-append (length c0.branches) c0.widen grows.fresh br grows.numbered
              (number ∙ count) (form ∙ (λ i. member (count i) (grows.widen_eq i)));
      }

  branch-Grows : (o l pops : ℕ) (c : CodeWriter) → Grows c0 c → Grows c0 (branch o l pops c)
  unfolding branch
  branch-Grows o l pops c grows =
      let long_form = member (length c.branches) c.widen in
      let before : CodeWriter = branch_form o long_form (note_depth l (pop pops c)) in
      let quiet : Quiet c before =
        branch_form-Keeps (quiet_rules c) o long_form _
          ((quiet_rules c).noting l _ ((quiet_rules c).popping pops c (Quiet-refl c))) in
      record_branch-Grows
        (record { ord = length c.branches; op = o; label = l; at = length c.w; wide = long_form })
        before (ap length (sym quiet.branches_eq))
        (sym (λ i. member (length (quiet.branches_eq i)) (quiet.widen_eq i)))
        (then_quiet c before grows quiet)

  quietly :
      (f : M) → ((c : CodeWriter) → Quiet c (f c)) → (c : CodeWriter) → Grows c0 c → Grows c0 (f c)
  quietly f quiet c grows = then_quiet c (f c) grows (quiet c)

  abbrev grow_rules : LabelRules
  grow_rules = record {
    rules = record {
      Inv = Grows c0;
      failing = λ e. quietly (fail e) (λ c. (quiet_rules c).failing e c (Quiet-refl c));
      writing_u1 = λ v. quietly (write_u1 v) (λ c. (quiet_rules c).writing_u1 v c (Quiet-refl c));
      writing_u2 = λ v. quietly (write_u2 v) (λ c. (quiet_rules c).writing_u2 v c (Quiet-refl c));
      writing_u4 = λ v. quietly (write_u4 v) (λ c. (quiet_rules c).writing_u4 v c (Quiet-refl c));
      ending = quietly terminate (λ c. (quiet_rules c).ending c (Quiet-refl c));
      pushing = λ n. quietly (push n) (λ c. (quiet_rules c).pushing n c (Quiet-refl c));
      popping = λ n. quietly (pop n) (λ c. (quiet_rules c).popping n c (Quiet-refl c));
      using = λ s n. quietly (use_local s n) (λ c. (quiet_rules c).using s n c (Quiet-refl c));
      noting = λ l. quietly (note_depth l) (λ c. (quiet_rules c).noting l c (Quiet-refl c));
      pooling = λ p. quietly _ (λ c. (quiet_rules c).pooling p c (Quiet-refl c));
      naming = λ ls. quietly _ (λ c. (quiet_rules c).naming ls c (Quiet-refl c));
      numbering = λ ls. quietly _ (λ c. (quiet_rules c).numbering ls c (Quiet-refl c));
      switching = λ s. quietly _ (λ c. (quiet_rules c).switching s c (Quiet-refl c));
    };
    branching = branch-Grows;
    handling = λ h. quietly (try_catch h) (λ c. try_catch-Quiet c h c (Quiet-refl c));
    marking = λ l. quietly (mark l) (λ c. mark-Quiet c l c (Quiet-refl c));
    labelling = quietly _ (λ c. new_label-Quiet c);
  }

-- Whatever methods a closure calls, in whatever order: the bytes that were there stay and others are
-- appended; the first error stays; the branches that are widened are left to `resolve`; and the
-- branches are numbered one after the other, each long exactly if its number is widened.
pub Steps-Grows : (c d : CodeWriter) → Steps c d → Grows c d
Steps-Grows c d run = Steps-Inv (grow_rules c) run (Grows-refl c)
