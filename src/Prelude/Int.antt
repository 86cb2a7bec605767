-- ===== src/Prelude/Int.antt =====
-- Go's signed integers: `int`, `int64`, `time.Duration`, and instants in nanoseconds.
use Prim.Native.Nat.{ℕ, zero, suc, ◌+◌, ◌-◌, ◌^◌, ◌≤◌, ◌<◌, compare, Ordering}
use mathlib.Core.Path.{◌≡◌}
use mathlib.Core.Bool.{Bool, true, false}
use native.Mathlib.Omega.{arith}
use fsm_go.Prelude.Tests.{ltb, leb, if◌then◌else◌}

-- `negsuc n` is -(n + 1).
pub data ℤ : Type 0 where
  pos : ℕ → ℤ
  negsuc : ℕ → ℤ

abbrev pub pos_part : ℤ → ℕ
pos_part (pos n) = n
pos_part (negsuc n) = 0

abbrev pub neg_part : ℤ → ℕ
neg_part (pos n) = 0
neg_part (negsuc n) = suc n

abbrev pub sub_ℕ : ℕ → ℕ → ℤ
sub_ℕ a b = if leb b a then pos (a - b) else negsuc (b - a - 1)

infixl 65 ◌+ℤ◌ ◌-ℤ◌
infix 50 ◌≤ℤ◌ ◌<ℤ◌
unfoldable pub ◌+ℤ◌ : ℤ → ℤ → ℤ
a +ℤ b = sub_ℕ (pos_part a + pos_part b) (neg_part a + neg_part b)

unfoldable pub ◌-ℤ◌ : ℤ → ℤ → ℤ
a -ℤ b = sub_ℕ (pos_part a + neg_part b) (neg_part a + pos_part b)

abbrev pub ◌≤ℤ◌ : ℤ → ℤ → Type 0
a ≤ℤ b = pos_part a + neg_part b ≤ pos_part b + neg_part a

abbrev pub ◌<ℤ◌ : ℤ → ℤ → Type 0
a <ℤ b = pos_part a + neg_part b < pos_part b + neg_part a

abbrev pub ltb_ℤ : ℤ → ℤ → Bool
ltb_ℤ a b = ltb (pos_part a + neg_part b) (pos_part b + neg_part a)

abbrev pub leb_ℤ : ℤ → ℤ → Bool
leb_ℤ a b = leb (pos_part a + neg_part b) (pos_part b + neg_part a)

abbrev pub eq_ℤ : ℤ → ℤ → Bool
eq_ℤ (pos a) (pos b) = elim (compare a b) [ Ordering.eq ↦ true | _ ↦ false ]
eq_ℤ (negsuc a) (negsuc b) = elim (compare a b) [ Ordering.eq ↦ true | _ ↦ false ]
eq_ℤ (pos a) (negsuc b) = false
eq_ℤ (negsuc a) (pos b) = false

-- the largest `int64`
abbrev pub max_int64 : ℕ
max_int64 = 2 ^ 63 - 1

-- a duration of 64 bits: what lies outside is the nearest one inside
unfoldable pub saturate : ℤ → ℤ
saturate a =
    if ltb_ℤ (pos max_int64) a
    then pos max_int64
    else if ltb_ℤ a (negsuc max_int64)
    then negsuc max_int64
    else a

-- `x++` on a 64-bit integer, which wraps from the largest to the smallest
unfoldable pub inc : ℤ → ℤ
inc a = if eq_ℤ a (pos max_int64) then negsuc max_int64 else a +ℤ pos 1

pub eq_ℤ-eq : (a b : ℤ) → eq_ℤ a b ≡ true → a ≡ b
eq_ℤ-eq (pos a) (pos b) h = ground arith
eq_ℤ-eq (negsuc a) (negsuc b) h = ground arith
eq_ℤ-eq (pos a) (negsuc b) h = ground arith
eq_ℤ-eq (negsuc a) (pos b) h = ground arith

pub eq_ℤ_refl : (a : ℤ) → eq_ℤ a a ≡ true
eq_ℤ_refl (pos a) = ground arith
eq_ℤ_refl (negsuc a) = ground arith

-- below the largest value `x++` adds one
pub inc-lt : (a : ℤ) → a <ℤ pos max_int64 → (inc a ≡ a +ℤ pos 1) × (a <ℤ inc a)
unfolding inc ◌+ℤ◌
inc-lt (pos a) h = ground arith
inc-lt (negsuc a) h = ground arith

-- below a bound that a word holds, `x++` adds one and stays within the bound
pub inc-within : (a b : ℤ) → a <ℤ b → b ≤ℤ pos max_int64 → (inc a ≡ a +ℤ pos 1) × (inc a ≤ℤ b)
unfolding inc ◌+ℤ◌
inc-within (pos a) (pos b) h k = ground arith
inc-within (pos a) (negsuc b) h k = ground arith
inc-within (negsuc a) (pos b) h k = ground arith
inc-within (negsuc a) (negsuc b) h k = ground arith

-- no value is its own successor, wrapped or not
pub eq_ℤ-inc : (a : ℤ) → eq_ℤ (inc a) a ≡ false
unfolding inc ◌+ℤ◌
eq_ℤ-inc (pos a) = ground arith
eq_ℤ-inc (negsuc zero) = ground arith
eq_ℤ-inc (negsuc (suc a)) = ground arith
