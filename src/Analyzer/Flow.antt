-- ===== src/Analyzer/Flow.antt =====
-- analyzer/flow/bits.go: the bit sets of definite assignment, and the pair of sets that is its state.
pub mod Digits
pub mod Sets
pub mod Laws
pub mod Equal
pub mod Held
pub mod History
mod Tests
use mocha.Prelude.{
  Bool, List, [], bit_and, bit_or, false, if◌then◌else◌, leb, length, ltb, not, replicate, set, suc,
  true, zero, ℕ, ◌%◌, ◌&&◌, ◌++◌, ◌+◌, ◌-◌, ◌/◌, ◌<<<◌, ◌==◌, ◌^◌, ◌∷◌,
}

-- An index, which may be negative, is an `int`; its range plays no part.
pub data ℤ : Type 0 where
  pos negsuc : ℕ → ℤ

-- A word is a number below 2 ^ 64.
pub record Bits : Type 0 where
  pub w : List ℕ

abbrev pub word_bits : ℕ
word_bits = 64

-- `newBits`
unfoldable pub new_bits : ℕ → Bits
new_bits n = record { w = if n == 0 then [] else replicate ((n + 63) / word_bits) 0 }

-- The loop of `grow`, with the number of its rounds.
abbrev pub append_zeros : ℕ → List ℕ → List ℕ
append_zeros zero w = w
append_zeros (suc n) w = append_zeros n (w ++ (0 ∷ []))

unfoldable pub grow : ℕ → Bits → Bits
grow n b = record { w = append_zeros ((n + 64) / word_bits - length b.w) b.w }

-- `w[i]`, where the index is in range.
abbrev pub word_at : ℕ → List ℕ → ℕ
word_at i [] = 0
word_at zero (x ∷ w) = x
word_at (suc i) (x ∷ w) = word_at i w

abbrev pub mask : ℕ → ℕ
mask i = 1 <<< (i % word_bits)

-- `x &^ y`, on words.
abbrev pub and_not : ℕ → ℕ → ℕ
and_not x y = bit_and x (2 ^ word_bits - 1 - y)

unfoldable pub set_bit : ℤ → Bits → Bits
unfolding grow
set_bit (negsuc i) b = b
set_bit (pos i) b =
    let grown = (grow i b).w in
    record { w = set grown (i / word_bits) (bit_or (word_at (i / word_bits) grown) (mask i)) }

unfoldable pub clear : ℤ → Bits → Bits
clear (negsuc i) b = b
clear (pos i) b =
    if leb (length b.w) (i / word_bits)
    then b
    else record { w = set b.w (i / word_bits) (and_not (word_at (i / word_bits) b.w) (mask i)) }

unfoldable pub has : ℤ → Bits → Bool
has (negsuc i) b = false
has (pos i) b =
    if leb (length b.w) (i / word_bits)
    then false
    else not (bit_and (word_at (i / word_bits) b.w) (mask i) == 0)

-- The loops of `and` and `or`, over the words that both have.
abbrev pub and_words : List ℕ → List ℕ → List ℕ
and_words (x ∷ v) (y ∷ w) = bit_and x y ∷ and_words v w
and_words _ _ = []

abbrev pub or_words : List ℕ → List ℕ → List ℕ
or_words (x ∷ v) (y ∷ w) = bit_or x y ∷ or_words v w
or_words v [] = v
or_words [] w = w

unfoldable pub and_bits : Bits → Bits → Bits
and_bits b o = record { w = and_words b.w o.w }

-- The shorter set is merged into the longer one.
unfoldable pub or_bits : Bits → Bits → Bits
or_bits b o = record {
  w = if ltb (length b.w) (length o.w) then or_words o.w b.w else or_words b.w o.w;
}

-- `word`, with 0 past the end
abbrev pub word : ℕ → Bits → ℕ
word i b = word_at i b.w

-- The loop of `equal`, from word i on.
unfoldable pub equal_from : ℕ → ℕ → Bits → Bits → Bool
equal_from zero i b o = true
equal_from (suc n) i b o = if not (word i b == word i o) then false else equal_from n (suc i) b o

unfoldable pub equal : Bits → Bits → Bool
unfolding equal_from
equal b o = equal_from (if ltb (length b.w) (length o.w) then length o.w else length b.w) 0 b o

-- `state`
pub record State : Type 0 where
  pub da : Bits
  pub du : Bits

-- The loop of `newState`: whether each variable, from number i on, is a blank final.
unfoldable pub mark_from : ℕ → List Bool → State → State
unfolding set_bit
mark_from i [] st = st
mark_from i (blank ∷ blanks) st = mark_from (suc i) blanks (
    if blank
    then record st { du = set_bit (pos i) st.du }
    else record st { da = set_bit (pos i) st.da })

unfoldable pub new_state : List Bool → State
unfolding mark_from new_bits
new_state blanks =
    mark_from 0 blanks (record { da = new_bits (length blanks); du = new_bits (length blanks) })

unfoldable pub join : State → State → State
unfolding and_bits
join a b = record { da = and_bits a.da b.da; du = and_bits a.du b.du }

unfoldable pub state_equal : State → State → Bool
unfolding equal
state_equal s o = equal s.da o.da && equal s.du o.du

unfoldable pub assign : ℤ → State → State
unfolding set_bit clear
assign i s = record { da = set_bit i s.da; du = clear i s.du }

-- `cond`
pub record Cond : Type 0 where
  pub when_true : State
  pub when_false : State

unfoldable pub unconditional : State → Cond
unconditional s = record { when_true = s; when_false = s }

unfoldable pub merge : Cond → State
unfolding join
merge c = join c.when_true c.when_false
