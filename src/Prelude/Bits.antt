-- ===== src/Prelude/Bits.antt =====
-- Masks and shifts of machine words as arithmetic, and why that is what `&` and `>>` compute.
use Prim.Native.Nat.{ℕ, zero, suc, ◌*◌, ◌/◌, ◌%◌, ◌^◌, ◌<◌, bit_and}
use mathlib.Core.Path.{◌≡◌, refl}
use mathlib.Core.Bool.{Bool, true, false, not}
use native.Mathlib.Omega.{arith}
use masters_sibren_wieme.Prelude.Tests.{◌==◌, if◌then◌else◌}

-- `x >> k`
abbrev pub shr : ℕ → ℕ → ℕ
shr x k = x / 2 ^ k

-- `x & (2^k - 1)`
abbrev pub low_bits : ℕ → ℕ → ℕ
low_bits x k = x % 2 ^ k

-- `x & (1 << k) != 0`
abbrev pub has_bit : ℕ → ℕ → Bool
has_bit k x = x / 2 ^ k % 2 == 1

abbrev pub IsByte : ℕ → Type 0
IsByte b = b < 256

abbrev pub IsU16 : ℕ → Type 0
IsU16 n = n < 2 ^ 16

abbrev pub IsU32 : ℕ → Type 0
IsU32 n = n < 2 ^ 32

-- Two functions agree on all arguments below a bound.
agrees : (ℕ → ℕ) → (ℕ → ℕ) → ℕ → Bool
agrees f g zero = true
agrees f g (suc bound) = if f bound == g bound then agrees f g bound else false

agrees→eq : (f g : ℕ → ℕ) (bound : ℕ) → agrees f g bound ≡ true → (x : ℕ) → x < bound → f x ≡ g x
unfolding agrees
agrees→eq f g zero table x below = absurd (omega arith)
agrees→eq f g (suc bound) table x below = ground (arith, agrees→eq f g bound (ground arith) x)

-- On a byte the top bit is what the mask 0x80 keeps.
top_bit-bit_and : (x : ℕ) → IsByte x → bit_and x 0x80 ≡ x / 2 ^ 7 % 2 * 128
unfolding agrees
top_bit-bit_and = agrees→eq (λ x. bit_and x 0x80) (λ x. x / 2 ^ 7 % 2 * 128) 256 refl

pub has_bit-bit_and : (x : ℕ) → IsByte x → has_bit 7 x ≡ not (bit_and x 0x80 == 0)
has_bit-bit_and x h = rw (top_bit-bit_and x h) (ground arith)

-- On a byte the low two bits are what the mask 0x03 keeps.
pub low_bits-bit_and : (x : ℕ) → IsByte x → bit_and x 0x03 ≡ low_bits x 2
unfolding agrees
low_bits-bit_and = agrees→eq (λ x. bit_and x 0x03) (λ x. low_bits x 2) 256 refl
