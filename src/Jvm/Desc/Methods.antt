-- ===== src/Jvm/Desc/Methods.antt =====
-- Method descriptors: the parameters are found by walking their types, not by looking for ')'.
use mocha.Prelude.{
  All, Bool-cases, List, Result, [], append_assoc, arith, bind-eq-ok, drop, drop-append, err, false,
  inl, inr, length, length-append, length-drop, ok, refl, replicate, stuck, suc, sym, true, zero, ℕ,
  ◌++◌, ◌+◌, ◌==◌, ◌>>=◌, ◌↔◌, ◌∙◌, ◌∷◌, ◌≡◌, ◌≢◌, ◌≤◌,
}
use mocha.Jvm.Desc.{
  DescType, Method, Reason, all_of, element_string, method_string, params_string, parse_method,
  parse_params, parse_result, parse_return, parse_type, type_string,
}
use mocha.Jvm.Desc.Fields.{
  IsType, Parsed, element_head, parse_return_iff, parse_type-Parsed, parse_type-append,
  type_string-length,
}
use mathlib.Core.Path.{subst, ap₂}

abbrev pub IsMethod : Method → Type 0
IsMethod m = All (IsType false) m.params × IsType true m.ret

-- A parameter never begins with the closing parenthesis.
type_head :
    (t : DescType) (rest : List ℕ)
    → (c : ℕ) × (tail : List ℕ) × (type_string t ++ rest ≡ c ∷ tail) × (c ≢ b')')
unfolding type_string
type_head t rest = go t.dims
  where
    go :
        (dims : ℕ)
        → (c : ℕ) × (tail : List ℕ) × ((replicate dims b'[' ++ element_string t.kind t.name) ++ rest
            ≡ c ∷ tail)
          × (c ≢ b')')
    go zero = let (c, tail, e, _, ne) = element_head t.kind t.name rest in (c, tail, e, ne)
    go (suc dims) = (b'[', _, refl, ground arith)

parse_params_round :
    (fuel : ℕ) (t : DescType) (ts : List DescType) (rest left : List ℕ)
    → IsType false t
    → parse_params fuel rest ≡ ok (ts, left)
    → parse_params (suc fuel) (type_string t ++ rest) ≡ ok (t ∷ ts, left)
parse_params_round fuel t ts rest left h ih =
    let (c, tail, e, ne) = type_head t rest in
    rw e (
      step c tail ne (rw (← e) (parse_type-append false t rest h))
        (rw (← e) (rw (drop-append (type_string t) rest) ih)))
  where
    step :
        (c : ℕ) (tail : List ℕ)
        → c ≢ b')'
        → parse_type (c ∷ tail) false ≡ ok (t, length (type_string t))
        → parse_params fuel (drop (length (type_string t)) (c ∷ tail)) ≡ ok (ts, left)
        → parse_params (suc fuel) (c ∷ tail) ≡ ok (t ∷ ts, left)
    step c tail ne parse more = unfold parse_params in ground arith

parse_params-append :
    (ts : List DescType) (fuel : ℕ) (rest : List ℕ)
    → All (IsType false) ts
    → length ts ≤ fuel
    → parse_params fuel (params_string ts ++ (b')' ∷ rest)) ≡ ok (ts, b')' ∷ rest)
parse_params-append [] zero rest h f = unfold parse_params in refl
parse_params-append [] (suc fuel) rest h f = unfold parse_params in refl
parse_params-append (t ∷ ts) zero rest h f = absurd (omega arith)
parse_params-append (t ∷ ts) (suc fuel) rest (ht, h) f =
    rw (append_assoc (type_string t) (params_string ts) (b')' ∷ rest))
      (parse_params_round fuel t ts _ _ ht (parse_params-append ts fuel rest h (omega arith)))

-- What the parameter loop accepts: it ends at a ')' or at the end of the input.
abbrev EndsList : List ℕ → Type 0
EndsList [] = Unit
EndsList (c ∷ s) = c ≡ b')'

abbrev ParsedParams : List ℕ → Result Reason (List DescType × List ℕ) → Type 0
ParsedParams s (ok (ts, rest)) =
    All (IsType false) ts × (params_string ts ++ rest ≡ s) × EndsList rest
ParsedParams s (err e) = Unit
ParsedParams s stuck = ⊥

ParsedParams-cons :
    (s : List ℕ) (t : DescType) (n : ℕ) (q : Result Reason (List DescType × List ℕ))
    → Parsed false s (ok (t, n))
    → ParsedParams (drop n s) q
    → ParsedParams s (do (ts, rest) ← q; ok (t ∷ ts, rest))
ParsedParams-cons s t n (ok (ts, rest)) (ht, size, e, taken) (hs, split, ends) =
    ((ht, hs), append_assoc (type_string t) (params_string ts) rest ∙ rw split e, ends)
ParsedParams-cons s t n (err e) h g = tt
ParsedParams-cons s t n stuck h g = g

ParsedParams-bind :
    (fuel : ℕ) (s : List ℕ) (r : Result Reason (DescType × ℕ))
    → Parsed false s r
    → ((n : ℕ) → 1 ≤ n → ParsedParams (drop n s) (parse_params fuel (drop n s)))
    → ParsedParams s (do (t, n) ← r; (ts, rest) ← parse_params fuel (drop n s); ok (t ∷ ts, rest))
ParsedParams-bind fuel s (ok (t, n)) h ih =
    ParsedParams-cons s t n (parse_params fuel (drop n s)) h (ih n h.3)
ParsedParams-bind fuel s (err e) h ih = tt
ParsedParams-bind fuel s stuck h ih = h

-- The loop ends within its fuel.
parse_params-Parsed :
    (fuel : ℕ) (s : List ℕ) → length s ≤ fuel → ParsedParams s (parse_params fuel s)
unfolding parse_params
parse_params-Parsed fuel [] h = (tt, refl, tt)
parse_params-Parsed zero (c ∷ s) h = absurd (omega arith)
parse_params-Parsed (suc fuel) (c ∷ s) h =
    unfold parse_params in
    elim (Bool-cases (c == b')')) [
      | inl close ↦ rw close (tt, refl, ground arith)
      | inr more ↦ rw more (
          ParsedParams-bind fuel (c ∷ s) (parse_type (c ∷ s) false)
            (parse_type-Parsed false (c ∷ s))
            (λ n pos.
              parse_params-Parsed fuel (drop n (c ∷ s)) (omega (arith, length-drop n (c ∷ s)))))
    ]

length-le-params_string : (ts : List DescType) → length ts ≤ length (params_string ts)
length-le-params_string [] = omega arith
length-le-params_string (t ∷ ts) = omega (
  arith,
  length-le-params_string ts,
  type_string-length t,
  length-append (type_string t) (params_string ts),
)

parse_result-Parsed :
    (s : List ℕ) (m : Method) (q : Result Reason (List DescType × List ℕ))
    → ParsedParams s q
    → (q >>= parse_result) ≡ ok m
    → IsMethod m × (params_string m.params ++ (b')' ∷ type_string m.ret) ≡ s)
unfolding parse_result
parse_result-Parsed s m (ok (ts, [])) h e = cc
parse_result-Parsed s m (ok (ts, c ∷ rest)) (hs, split, ends) e =
    let (ret, parsed, whole) = bind-eq-ok (parse_return rest) _ e in
    let (ht, spelled) = (parse_return_iff rest ret).0 parsed in
    let same : record { params = ts; ret = ret } ≡ m = cc in
    subst (λ v. IsMethod v × (params_string v.params ++ (b')' ∷ type_string v.ret) ≡ s)) same
      ((hs, ht), rw (spelled, ← ends) split)
parse_result-Parsed s m (err x) h e = cc
parse_result-Parsed s m stuck h e = cc

method_parsed :
    (s : List ℕ) (m : Method) → parse_method s ≡ ok m → IsMethod m × (method_string m ≡ s)
unfolding parse_method method_string
method_parsed [] m e = cc
method_parsed (c ∷ s) m e =
    let opened : (c ≡ b'(') × ((parse_params (length s) s >>= parse_result) ≡ ok m) =
      ground arith in
    let (h, spelled) =
      parse_result-Parsed s m _ (parse_params-Parsed (length s) s (omega arith)) opened.1 in
    (h, ap₂ ◌∷◌ (sym opened.0) spelled)

-- The fuel is enough for the parameters, and the length check passes.
method_printed : (m : Method) → IsMethod m → parse_method (method_string m) ≡ ok m
unfolding parse_method parse_result method_string
method_printed m (hs, ht) =
    let s = params_string m.params ++ (b')' ∷ type_string m.ret) in
    let long : length s ≡ length (params_string m.params) + suc (length (type_string m.ret)) =
      length-append (params_string m.params) (b')' ∷ type_string m.ret) in
    let walk : parse_params (length s) s ≡ ok (m.params, b')' ∷ type_string m.ret) =
      parse_params-append m.params (length s) (type_string m.ret) hs
        (omega (arith, length-le-params_string m.params)) in
    let back : parse_return (type_string m.ret) ≡ ok m.ret =
      (parse_return_iff (type_string m.ret) m.ret).1 (ht, refl) in
    ground (arith, type_string-length m.ret)

-- A method descriptor parses to `m` exactly when it spells `m`, its parameters are field types and
-- its result is void or a field type.
pub parse_method_iff :
    (s : List ℕ) (m : Method) → (parse_method s ≡ ok m) ↔ (IsMethod m × (method_string m ≡ s))
parse_method_iff s m =
    (method_parsed s m, λ (h, e). subst (λ t. parse_method t ≡ ok m) e (method_printed m h))

parse_return-ne-stuck : (s : List ℕ) → parse_return s ≢ stuck
unfolding parse_return
parse_return-ne-stuck s = go (parse_type s true) (parse_type-Parsed true s)
  where
    go : (r : Result Reason (DescType × ℕ)) → Parsed true s r → (r >>= all_of s) ≢ stuck
    go (ok (t, n)) h = λ e. ground arith
    go (err x) h = λ e. cc
    go stuck h = absurd h

abbrev with_result : List DescType → DescType → Result Reason Method
with_result ts t = ok (record { params = ts; ret = t })

with_result-ne-stuck :
    (ts : List DescType) (r : Result Reason DescType) → r ≢ stuck → (r >>= with_result ts) ≢ stuck
with_result-ne-stuck ts (ok t) h = λ e. cc
with_result-ne-stuck ts (err x) h = λ e. cc
with_result-ne-stuck ts stuck h = absurd (h refl)

parse_result-ne-stuck :
    (s : List ℕ) (q : Result Reason (List DescType × List ℕ))
    → ParsedParams s q
    → (q >>= parse_result) ≢ stuck
unfolding parse_result
parse_result-ne-stuck s (ok (ts, [])) h = λ e. cc
parse_result-ne-stuck s (ok (ts, x ∷ rest)) h =
    with_result-ne-stuck ts (parse_return rest) (parse_return-ne-stuck rest)
parse_result-ne-stuck s (err x) h = λ e. cc
parse_result-ne-stuck s stuck h = absurd h

-- `ParseMethod` ends on every input: its loop never runs out of fuel.
pub parse_method-ne-stuck : (s : List ℕ) → parse_method s ≢ stuck
unfolding parse_method
parse_method-ne-stuck [] = λ e. cc
parse_method-ne-stuck (c ∷ s) =
    let ends =
      parse_result-ne-stuck s (parse_params (length s) s)
        (parse_params-Parsed (length s) s (omega arith)) in
    λ e. ends (ground arith)
