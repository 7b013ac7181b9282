-- ===== src/Classfile/Builder/Stored.antt =====
-- classfile/builder.go: what `Code` leaves in the method when it reports no error.
use mocha.Prelude.{
  Bool, Bool-cases, List, Option, Option-cases, Result, [], arith, err, false, get_elem?,
  if◌then◌else◌, inl, inr, length, ltb, none, not, ok, refl, set, some, stuck, suc, true, zero, ℕ,
  ◌++◌, ◌<◌, ◌==◌, ◌||◌, ◌∷◌, ◌≡◌, ◌≢◌, ◌≤◌,
}
use mocha.Classfile.Builder.{
  B, Builder, BuilderError, EncodedHandler, MethodBuilder, acc_static, bad_method, body_failed,
  code_too_long, empty_code, fail, falls_off, frame_too_large, has_flags, no_convergence,
  update_method,
}
use mocha.Classfile.Builder.Body.{
  catch_index, code, encode_handlers, finish, max_code_length, max_replays, passes, pc_of, settle,
  store_code, with_code, with_signature,
}
use mocha.Classfile.Code.{
  CodeError, CodeWriter, HandlerRec, Label, label_at, locals_limit, stack_limit,
}
use mocha.Classfile.Code.Calls.{start_writer}
use mocha.Classfile.Code.Resolve.{resolve}
use mocha.Classfile.Code.Rows.{local_rows}
use mocha.Classfile.Pool.{PoolBuilder, intern_class}
use mocha.Jvm.Desc.{
  Method, Reason, arg_slots, check_arg_slots, max_arg_slots, parse_method, too_many_slots,
}
use mocha.Jvm.Desc.Methods.{parse_method-ne-stuck}

-- The number is the offset of the label where this fits in 16 bits, and 65535 for a label without one.
abbrev pub IsOffset : List Label → ℕ → ℕ → Type 0
IsOffset labels l v =
    ((label_at labels l).pc ≡ none → v ≡ 65535)
    × ((pc : ℕ) → (label_at labels l).pc ≡ some pc → pc ≤ 65535 → v ≡ pc)

-- The index for the class that is caught, 0 for all of them, and the pool that follows.
abbrev pub Catches : List ℕ → ℕ → PoolBuilder → PoolBuilder → Type 0
Catches [] index p q = (index ≡ 0) × (q ≡ p)
Catches (x ∷ xs) index p q = intern_class (x ∷ xs) p ≡ (index, q)

-- The rows are those of the handlers, in their order, with their classes interned from the pool `p`
-- on, which makes it the pool `r`.
abbrev pub AreRows :
    List Label → List HandlerRec → List EncodedHandler → PoolBuilder → PoolBuilder → Type 0
AreRows labels [] [] p r = r ≡ p
AreRows labels (h ∷ hs) (e ∷ es) p r =
    IsOffset labels h.start e.start
    × IsOffset labels h.end e.end
    × IsOffset labels h.handler e.handler
    × ((q : PoolBuilder) × Catches h.catch_type e.catch_type p q × AreRows labels hs es q r)
AreRows labels [] (e ∷ es) p r = ⊥
AreRows labels (h ∷ hs) [] p r = ⊥

-- The method at `j` is `m` with the code of the writer, which is within the limits of a class file, and
-- with its handlers, whose classes are interned from the pool `p` on.
pub record IsStored (c : CodeWriter) (p : PoolBuilder) (j : ℕ) (m : MethodBuilder) (b : Builder)
    : Type 0 where
  pub made : MethodBuilder
  pub stored : get_elem? b.methods j ≡ some made
  pub code_kept : made.code ≡ c.w
  pub stack_kept : made.max_stack ≡ c.max_stack
  pub locals_kept : made.max_locals ≡ c.max_locals
  pub lines_kept : made.lines ≡ c.lines
  pub rows_kept : made.locals ≡ (local_rows c).0
  pub rows_clean : (local_rows c).1.err ≡ none
  pub has_body : made.has_code ≡ true
  pub more : List EncodedHandler
  pub handlers_added : made.handlers ≡ m.handlers ++ more
  pub handlers_right : AreRows c.labels c.handlers more p b.pool
  pub head_kept :
      (made.flags ≡ m.flags)
      × (made.name ≡ m.name)
      × (made.descriptor ≡ m.descriptor)
      × (made.signature ≡ m.signature)
      × (made.exceptions ≡ m.exceptions)
  pub some_bytes : 0 < length c.w
  pub few_bytes : length c.w ≤ 65535
  pub stack_fits : c.max_stack ≤ 65535
  pub locals_fit : c.max_locals ≤ 65535

-- A writer that `Code` gives to the closure: it knows the class's version, the method's return type,
-- and the slots of its arguments, one more unless the method is static.
abbrev pub IsStart : ℕ → MethodBuilder → CodeWriter → Type 0
IsStart major m c =
    (sig : Method) × (p : PoolBuilder) × (widen : List ℕ) × (pass : ℕ) × (parse_method m.descriptor
      ≡ ok sig)
    × (c
        ≡ start_writer p sig.ret major widen pass
            (arg_slots sig (not (has_flags m.flags acc_static))))

-- The last pass: the closure ended without an error, where control does not fall off the end, and
-- `resolve` did not ask for another pass.
pub record LastPass (body : CodeWriter → CodeWriter) (major j : ℕ) (m : MethodBuilder) (b : Builder)
    : Type 0 where
  pub start : CodeWriter
  pub starts : IsStart major m start
  pub clean : (body start).err ≡ none
  pub closed : (body start).reachable ≡ false
  pub done : (resolve (body start)).0 ≡ false
  pub kept : IsStored (resolve (body start)).1 (body start).p j m b

failed : (e : BuilderError) (b : Builder) → ¬ ((fail e b).err ≡ none)
unfolding fail
failed e b h = ground arith

get_elem?-set_same :
    {A : Type 0} (xs : List A) (i : ℕ) (v x : A)
    → get_elem? xs i ≡ some x
    → get_elem? (set xs i v) i ≡ some v
get_elem?-set_same [] i v x h = cc
get_elem?-set_same (y ∷ xs) zero v x h = refl
get_elem?-set_same (y ∷ xs) (suc i) v x h = get_elem?-set_same xs i v x h

pc_of-IsOffset : (labels : List Label) (l : ℕ) → IsOffset labels l (pc_of labels l)
pc_of-IsOffset labels l = elim (Option-cases (label_at labels l).pc) [
  | inl e ↦ rw (e, pc_of) (λ lost. refl, λ pc there fits. absurd (ground arith))
  | inr (at, e) ↦ rw (e, pc_of) (λ lost. absurd (ground arith), λ pc there fits. ground arith)
]

catch_index-Catches :
    (name : List ℕ) (p : PoolBuilder) → Catches name (catch_index name p).0 p (catch_index name p).1
catch_index-Catches [] p = (refl, refl)
catch_index-Catches (x ∷ xs) p = refl

encode_handlers-AreRows :
    (labels : List Label) (hs : List HandlerRec) (p : PoolBuilder)
    → AreRows labels hs (encode_handlers labels hs p).0 p (encode_handlers labels hs p).1
unfolding encode_handlers
encode_handlers-AreRows labels [] p = refl
encode_handlers-AreRows labels (h ∷ hs) p = (
  pc_of-IsOffset labels h.start,
  pc_of-IsOffset labels h.end,
  pc_of-IsOffset labels h.handler,
  (
    (catch_index h.catch_type p).1,
    catch_index-Catches h.catch_type p,
    encode_handlers-AreRows labels hs (catch_index h.catch_type p).1,
  ),
)

store_code-IsStored :
    (j : ℕ) (m old : MethodBuilder) (c : CodeWriter) (b : Builder)
    → get_elem? b.methods j ≡ some old
    → 0 < length c.w
    → length c.w ≤ 65535
    → c.max_stack ≤ 65535
    → c.max_locals ≤ 65535
    → (store_code j m c b).err ≡ none
    → IsStored c b.pool j m (store_code j m c b)
unfolding store_code
store_code-IsStored j m old c b found some_code few stack locals ok_after =
    elim (Option-cases (local_rows c).1.err) [
      | inr (e, bad) ↦ absurd (
          failed (body_failed e) (update_method j (with_code c (local_rows c).0 m) b)
            (rw (bad, store_code) at ok_after))
      | inl good ↦
          rw (good, store_code)
            (record {
              made = _;
              stored = get_elem?-set_same b.methods j _ old found;
              code_kept = refl;
              stack_kept = ground arith;
              locals_kept = ground arith;
              lines_kept = refl;
              rows_kept = refl;
              rows_clean = good;
              has_body = refl;
              more = (encode_handlers c.labels c.handlers b.pool).0;
              handlers_added = refl;
              handlers_right = encode_handlers-AreRows c.labels c.handlers b.pool;
              head_kept = (refl, refl, refl, refl, refl);
              some_bytes = some_code;
              few_bytes = few;
              stack_fits = stack;
              locals_fit = locals;
            })
    ]

IsStored-if :
    (t : Bool) (e : BuilderError) (b other : Builder) (p : PoolBuilder) (j : ℕ) (c : CodeWriter)
    (m : MethodBuilder)
    → (if t then fail e b else other).err ≡ none
    → (t ≡ false → other.err ≡ none → IsStored c p j m other)
    → IsStored c p j m (if t then fail e b else other)
IsStored-if true e b other p j c m h next = absurd (failed e b h)
IsStored-if false e b other p j c m h next = next refl h

finish-IsStored :
    (j : ℕ) (m old : MethodBuilder) (c : CodeWriter) (b : Builder)
    → get_elem? b.methods j ≡ some old
    → (finish j m c b).err ≡ none
    → IsStored c b.pool j m (finish j m c b)
unfolding finish
finish-IsStored j m old c b found =
    let end : Builder =
      if length c.w == 0
      then fail empty_code b
      else if ltb max_code_length (length c.w)
      then fail code_too_long b
      else if ltb stack_limit c.max_stack || ltb locals_limit c.max_locals
      then fail frame_too_large b
      else store_code j m c b in
    elim c.err
      as (λ o.
        let r : Builder = elim o [ some e ↦ fail (body_failed e) b | none ↦ end ] in
        r.err ≡ none → IsStored c b.pool j m r) [
          | some e ↦ λ clean. absurd (failed (body_failed e) b clean)
          | none ↦ λ clean.
              IsStored-if (length c.w == 0) empty_code b _ b.pool j c m clean λ bytes clean1.
                IsStored-if (ltb max_code_length (length c.w)) code_too_long b _ b.pool j c m clean1
                  λ few clean2.
                    IsStored-if (ltb stack_limit c.max_stack || ltb locals_limit c.max_locals)
                      frame_too_large b _ b.pool j c m clean2
                      λ frame clean3.
                        store_code-IsStored j m old c b found (ground arith) (ground arith)
                          (ground arith) (ground arith) clean3
        ]

settle-LastPass :
    (body : CodeWriter → CodeWriter) (major j : ℕ) (m : MethodBuilder) (start : CodeWriter)
    (replay end : B) (b : Builder)
    → IsStart major m start
    → ((replay b).err ≡ none → LastPass body major j m (replay b))
    → ((end b).err ≡ none → IsStored (resolve (body start)).1 (body start).p j m (end b))
    → (o : Option CodeError) (reachable again : Bool) → (body start).err ≡ o
    → (body start).reachable ≡ reachable
    → (resolve (body start)).0 ≡ again
    → (settle o reachable again replay end b).err ≡ none
    → LastPass body major j m (settle o reachable again replay end b)
settle-LastPass body major j m start replay end b new next last (some e) reachable again eo er ea
      clean =
    absurd (failed (body_failed e) b clean)
settle-LastPass body major j m start replay end b new next last none true again eo er ea clean =
    absurd (failed falls_off b clean)
settle-LastPass body major j m start replay end b new next last none false true eo er ea clean =
    next clean
settle-LastPass body major j m start replay end b new next last none false false eo er ea clean =
    record { start = start; starts = new; clean = eo; closed = er; done = ea; kept = last clean }

passes-LastPass :
    (body : CodeWriter → CodeWriter) (sig : Method) (j : ℕ) (m old : MethodBuilder) (left pass : ℕ)
    (widen : List ℕ) (b : Builder)
    → parse_method m.descriptor ≡ ok sig
    → get_elem? b.methods j ≡ some old
    → (passes body sig (not (has_flags m.flags acc_static)) j m left pass widen b).err ≡ none
    → LastPass body b.version.major j m
        (passes body sig (not (has_flags m.flags acc_static)) j m left pass widen b)
unfolding passes
passes-LastPass body sig j m old zero pass widen b parsed found clean =
    absurd (failed no_convergence b clean)
passes-LastPass body sig j m old (suc left) pass widen b parsed found clean =
    let receiver = not (has_flags m.flags acc_static) in
    let start = start_writer b.pool sig.ret b.version.major widen pass (arg_slots sig receiver) in
    let c = body start in
    settle-LastPass body b.version.major j m start
      (passes body sig receiver j m left (suc pass) (resolve c).1.widen) (finish j m (resolve c).1)
      (record b { pool = c.p }) (sig, b.pool, widen, pass, parsed, refl)
      (passes-LastPass body sig j m old left (suc pass) (resolve c).1.widen
        (record b { pool = c.p }) parsed found)
      (finish-IsStored j m old (resolve c).1 (record b { pool = c.p }) found) c.err c.reachable
      (resolve c).0 refl refl refl clean

with_signature-LastPass :
    (body : CodeWriter → CodeWriter) (major j : ℕ) (m : MethodBuilder) (run : Method → Bool → B)
    (receiver : Bool) (r : Result Reason Method) (b : Builder)
    → ((sig : Method)
        → r ≡ ok sig
        → (run sig receiver b).err ≡ none
        → LastPass body major j m (run sig receiver b))
    → r ≢ stuck
    → (with_signature run receiver r b).err ≡ none
    → LastPass body major j m (with_signature run receiver r b)
unfolding check_arg_slots
with_signature-LastPass body major j m run receiver (ok sig) b runs total clean =
    elim (Bool-cases (ltb max_arg_slots (arg_slots sig receiver))) [
      | inl over ↦ absurd (
          failed (bad_method too_many_slots) b
            (rw (over, with_signature, check_arg_slots) at clean))
      | inr fits ↦
          rw (fits, with_signature, check_arg_slots)
            (runs sig refl (rw (fits, with_signature, check_arg_slots) at clean))
    ]
with_signature-LastPass body major j m run receiver (err e) b runs total clean =
    absurd (failed (bad_method e) b clean)
with_signature-LastPass body major j m run receiver stuck b runs total clean = absurd (total refl)

-- If `Code` on a method of a builder without an error reports none, the method has a body: the
-- code of a last pass, in which the closure ended without an error and not where control can fall
-- off the end, and after which `resolve` did not ask for another pass. The closure started from a
-- fresh writer for the descriptor, the flags and the class's version, with some pool, pass number
-- and branches to widen. The code has 1 to 65535 bytes; max_stack and max_locals are exactly those
-- of the writer and fit in 16 bits; lines and locals are the writer's. For each handler of the
-- writer, in order, a row is added behind the rows that were there: the offsets of its labels
-- where they fit in 16 bits (65535 for a label that was not placed) and the index of its class, or
-- 0 without one, and the builder keeps the pool in which these classes are interned. Flags, name,
-- descriptor, signature and exceptions stay.
pub code-LastPass :
    (body : CodeWriter → CodeWriter) (j : ℕ) (m : MethodBuilder) (b : Builder)
    → b.err ≡ none
    → get_elem? b.methods j ≡ some m
    → (code body j b).err ≡ none
    → LastPass body b.version.major j m (code body j b)
unfolding code
code-LastPass body j m b clean found =
    rw (clean, code)
      (rw (found, code)
        λ ok_after.
          with_signature-LastPass body b.version.major j m
            (λ sig receiver. passes body sig receiver j m max_replays 0 [])
            (not (has_flags m.flags acc_static)) (parse_method m.descriptor) b
            (λ sig parsed. passes-LastPass body sig j m m max_replays 0 [] b parsed found)
            (parse_method-ne-stuck m.descriptor) ok_after)
