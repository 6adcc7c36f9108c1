-- ===== src/Base/Int.antt =====
-- Signed integers over the native numbers, and Go's int64 arithmetic on them.
use Prim.Native.Nat.{ℕ, suc, ◌+◌, ◌-◌, ◌*◌, ◌%◌, ◌^◌, ◌≤◌}
use mathlib.Core.Path.{◌≡◌}
use mathlib.Core.Bool.{Bool, ◌&&◌}
use native.Mathlib.Omega.{arith}
use go_grpc_http.Base.Tests.{ltb, leb, if◌then◌else◌}

-- `negsuc n` is -(n + 1).
pub data ℤ : Type 0 where
  pos : ℕ → ℤ
  negsuc : ℕ → ℤ

abbrev pub pos_part : ℤ → ℕ
pos_part (pos n) = n
pos_part (negsuc n) = 0

abbrev pub neg_part : ℤ → ℕ
neg_part (pos n) = 0
neg_part (negsuc n) = suc n

-- a - b, as an integer.
abbrev pub sub_ℕ : ℕ → ℕ → ℤ
sub_ℕ a b = if leb b a then pos (a - b) else negsuc (b - a - 1)

infixl 65 ◌+ℤ◌ ◌-ℤ◌
infixl 70 ◌*ℤ◌
infix 50 ◌≤ℤ◌ ◌<ℤ◌
unfoldable pub ◌+ℤ◌ : ℤ → ℤ → ℤ
a +ℤ b = sub_ℕ (pos_part a + pos_part b) (neg_part a + neg_part b)

unfoldable pub ◌-ℤ◌ : ℤ → ℤ → ℤ
a -ℤ b = sub_ℕ (pos_part a + neg_part b) (neg_part a + pos_part b)

unfoldable pub ◌*ℤ◌ : ℤ → ℤ → ℤ
a *ℤ b =
    sub_ℕ (pos_part a * pos_part b + neg_part a * neg_part b)
      (pos_part a * neg_part b + neg_part a * pos_part b)

abbrev pub ◌≤ℤ◌ : ℤ → ℤ → Type 0
a ≤ℤ b = pos_part a + neg_part b ≤ pos_part b + neg_part a

abbrev pub ◌<ℤ◌ : ℤ → ℤ → Type 0
a <ℤ b = suc (pos_part a + neg_part b) ≤ pos_part b + neg_part a

abbrev pub leb_ℤ : ℤ → ℤ → Bool
leb_ℤ a b = leb (pos_part a + neg_part b) (pos_part b + neg_part a)

abbrev pub ltb_ℤ : ℤ → ℤ → Bool
ltb_ℤ a b = ltb (pos_part a + neg_part b) (pos_part b + neg_part a)

-- One lemma for each operation lets `omega` work with the operations shut, at any depth.
pub +ℤ_parts :
    (a b : ℤ)
    → pos_part (a +ℤ b) + neg_part a + neg_part b ≡ neg_part (a +ℤ b) + pos_part a + pos_part b
unfolding ◌+ℤ◌
+ℤ_parts a b = ground arith

pub -ℤ_parts :
    (a b : ℤ)
    → pos_part (a -ℤ b) + neg_part a + pos_part b ≡ neg_part (a -ℤ b) + pos_part a + neg_part b
unfolding ◌-ℤ◌
-ℤ_parts a b = ground arith

pub eq_of_parts : (a b : ℤ) → pos_part a + neg_part b ≡ pos_part b + neg_part a → a ≡ b
eq_of_parts a b h = ground arith

pub ruleset int_laws = (arith, +ℤ_parts, -ℤ_parts, eq_of_parts)

pub +ℤ_assoc : (a b c : ℤ) → a +ℤ b +ℤ c ≡ a +ℤ (b +ℤ c)
+ℤ_assoc a b c = omega int_laws

pub +ℤ_zero_right : (a : ℤ) → a +ℤ pos 0 ≡ a
+ℤ_zero_right a = omega int_laws

pub +ℤ_zero_left : (a : ℤ) → pos 0 +ℤ a ≡ a
+ℤ_zero_left a = omega int_laws

-- Go's int64: a value wraps to -2^63 .. 2^63 - 1.
abbrev pub int64_max : ℕ
int64_max = 2 ^ 63 - 1

-- the bit pattern of an integer in 64 bits
abbrev pub pattern64 : ℤ → ℕ
pattern64 (pos n) = n % 2 ^ 64
pattern64 (negsuc n) = 2 ^ 64 - 1 - n % 2 ^ 64

-- the integer that a bit pattern stands for
abbrev pub signed64 : ℕ → ℤ
signed64 w = if ltb w (2 ^ 63) then pos w else negsuc (2 ^ 64 - 1 - w)

unfoldable pub wrap64 : ℤ → ℤ
wrap64 z = signed64 (pattern64 z)

abbrev pub IsInt64 : ℤ → Type 0
IsInt64 z = (pos_part z ≤ 2 ^ 63 - 1) × (neg_part z ≤ 2 ^ 63)

pub wrap64-IsInt64 : (z : ℤ) → IsInt64 (wrap64 z)
unfolding wrap64
wrap64-IsInt64 z = ground arith

pub wrap64_of_IsInt64 : (z : ℤ) → IsInt64 z → wrap64 z ≡ z
unfolding wrap64
wrap64_of_IsInt64 z h = ground arith

-- Wrapping moves a value by a multiple of 2^64.
pub wrap64_parts :
    (z : ℤ)
    → (pos_part (wrap64 z) + neg_part z) % 2 ^ 64 ≡ (neg_part (wrap64 z) + pos_part z) % 2 ^ 64
unfolding wrap64
wrap64_parts z = ground arith

-- Two 64-bit integers that differ by a multiple of 2^64 are equal.
eq_of_congruent :
    (a b : ℤ)
    → IsInt64 a
    → IsInt64 b
    → (pos_part a + neg_part b) % 2 ^ 64 ≡ (neg_part a + pos_part b) % 2 ^ 64
    → a ≡ b
eq_of_congruent a b ha hb h = ground (arith, eq_of_parts a b)

-- Wrapping a summand first does not change the wrapped sum.
pub wrap64-+ℤ_left : (a b : ℤ) → wrap64 (wrap64 a +ℤ b) ≡ wrap64 (a +ℤ b)
wrap64-+ℤ_left a b =
    eq_of_congruent (wrap64 (wrap64 a +ℤ b)) (wrap64 (a +ℤ b)) (wrap64-IsInt64 (wrap64 a +ℤ b))
      (wrap64-IsInt64 (a +ℤ b))
      (omega (
        arith,
        wrap64_parts (wrap64 a +ℤ b),
        wrap64_parts (a +ℤ b),
        wrap64_parts a,
        +ℤ_parts (wrap64 a) b,
        +ℤ_parts a b,
      ))

pub wrap64-+ℤ_right : (a b : ℤ) → wrap64 (a +ℤ wrap64 b) ≡ wrap64 (a +ℤ b)
wrap64-+ℤ_right a b =
    eq_of_congruent (wrap64 (a +ℤ wrap64 b)) (wrap64 (a +ℤ b)) (wrap64-IsInt64 (a +ℤ wrap64 b))
      (wrap64-IsInt64 (a +ℤ b))
      (omega (
        arith,
        wrap64_parts (a +ℤ wrap64 b),
        wrap64_parts (a +ℤ b),
        wrap64_parts b,
        +ℤ_parts a (wrap64 b),
        +ℤ_parts a b,
      ))

-- Go's int32, and the range of PostgreSQL's INT.
abbrev pub int32_max : ℕ
int32_max = 2 ^ 31 - 1

abbrev pub pattern32 : ℤ → ℕ
pattern32 (pos n) = n % 2 ^ 32
pattern32 (negsuc n) = 2 ^ 32 - 1 - n % 2 ^ 32

abbrev pub signed32 : ℕ → ℤ
signed32 w = if ltb w (2 ^ 31) then pos w else negsuc (2 ^ 32 - 1 - w)

unfoldable pub wrap32 : ℤ → ℤ
wrap32 z = signed32 (pattern32 z)

abbrev pub IsInt32 : ℤ → Type 0
IsInt32 z = (pos_part z ≤ 2 ^ 31 - 1) × (neg_part z ≤ 2 ^ 31)

abbrev pub is_int32 : ℤ → Bool
is_int32 z = leb (pos_part z) (2 ^ 31 - 1) && leb (neg_part z) (2 ^ 31)

pub wrap32_of_IsInt32 : (z : ℤ) → IsInt32 z → wrap32 z ≡ z
unfolding wrap32
wrap32_of_IsInt32 z h = ground arith

pub IsInt32_of_bounds : (z : ℤ) → z ≤ℤ pos int32_max → negsuc int32_max ≤ℤ z → IsInt32 z
IsInt32_of_bounds z high low = ground (arith, high, low)
