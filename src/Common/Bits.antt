-- ===== src/Common/Bits.antt =====
-- Exclusive or and or of binary digits, as far as a comparison that runs in constant time uses them.
use Prim.Native.Nat.{
  ℕ, zero, suc, ◌/◌, ◌%◌, ◌≤◌, max, bit_or, bit_xor, bit_or-bitwise, bit_xor-bitwise, digits,
  differ,
}
use mathlib.Core.Path.{◌≡◌}
use mathlib.Core.Logic.{◌↔◌}
use mathlib.Core.List.{List, [], ◌∷◌}
use native.Mathlib.Omega.{arith}
use zegel.Common.Lists.{length}

differ_iff : (x y : ℕ) → (differ x y ≡ 0) ↔ (x ≡ y)
differ_iff zero y = ground arith
differ_iff (suc x) zero = ground arith
differ_iff (suc x) (suc y) = ground (arith, differ_iff x y)

xor_digits_iff : (n a b : ℕ) → a ≤ n → (digits (λ b. b) differ n a b ≡ 0) ↔ (a ≡ b)
xor_digits_iff zero zero b h = ground arith
xor_digits_iff zero (suc a) b h = absurd (omega arith)
xor_digits_iff (suc n) zero b h = ground arith
xor_digits_iff (suc n) (suc a) b h =
    let ih = xor_digits_iff n (suc a / 2) (b / 2) (omega arith) in
    let d = differ_iff (suc a % 2) (b % 2) in ground arith

or_digits_iff : (n a b : ℕ) → a ≤ n → (digits (λ b. b) max n a b ≡ 0) ↔ ((a ≡ 0) × (b ≡ 0))
or_digits_iff zero zero b h = ground arith
or_digits_iff zero (suc a) b h = absurd (omega arith)
or_digits_iff (suc n) zero b h = ground arith
or_digits_iff (suc n) (suc a) b h =
    let ih = or_digits_iff n (suc a / 2) (b / 2) (omega arith) in grind arith

bit_xor-eq-zero : (a b : ℕ) → (bit_xor a b ≡ 0) ↔ (a ≡ b)
bit_xor-eq-zero a b = rw (bit_xor-bitwise a b) (xor_digits_iff a a b (omega arith))

bit_or-eq-zero : (a b : ℕ) → (bit_or a b ≡ 0) ↔ ((a ≡ 0) × (b ≡ 0))
bit_or-eq-zero a b = rw (bit_or-bitwise a b) (or_digits_iff a a b (omega arith))

-- The loop of a comparison that goes over the places of the first text and accumulates the differing
-- bits; `charCodeAt` behind the end of the second text counts as 0.
unfoldable pub differences : ℕ → List ℕ → List ℕ → ℕ
differences diff [] ys = diff
differences diff (x ∷ xs) [] = differences (bit_or diff (bit_xor x 0)) xs []
differences diff (x ∷ xs) (y ∷ ys) = differences (bit_or diff (bit_xor x y)) xs ys

pub differences_iff :
    (diff : ℕ) (xs ys : List ℕ)
    → length xs ≡ length ys
    → (differences diff xs ys ≡ 0) ↔ ((diff ≡ 0) × (xs ≡ ys))
unfolding differences
differences_iff diff [] [] h = ground arith
differences_iff diff [] (y ∷ ys) h = absurd (omega arith)
differences_iff diff (x ∷ xs) [] h = absurd (omega arith)
differences_iff diff (x ∷ xs) (y ∷ ys) h =
    let ih = differences_iff (bit_or diff (bit_xor x y)) xs ys (omega arith) in
    let o = bit_or-eq-zero diff (bit_xor x y) in let e = bit_xor-eq-zero x y in ground arith
