-- ===== src/App/Mrz/Digits.antt =====
-- app/src/lib/mrz.ts, `checkDigit`: the weights of the check digit.
use zegel.Common.{ℕ, suc, ◌⊎◌, inl, inr, ◌+◌, ◌*◌, ◌%◌, ◌≡◌, ap, ◌↔◌, [], ◌∷◌, ◌++◌, length, arith}
use native.Mathlib.Nat.{add-zero}
use zegel.Common.Text.{Text}
use zegel.App.Mrz.{char_value, weight, weighted_sum, check_digit}

weighted_sum-append :
    (i : ℕ) (s t : Text)
    → weighted_sum i (s ++ t) ≡ weighted_sum i s + weighted_sum (i + length s) t
unfolding weighted_sum
weighted_sum-append i [] t = rw add-zero (omega arith)
weighted_sum-append i (c ∷ s) t =
    let place : i + 1 + length s ≡ i + suc (length s) = omega arith in
    omega (arith, weighted_sum-append (i + 1) s t, ap (λ (k : ℕ). weighted_sum k t) place)

weight-cases : (i : ℕ) → (weight i ≡ 7) ⊎ ((weight i ≡ 3) ⊎ (weight i ≡ 1))
weight-cases i = ground arith

-- The weights have an inverse modulo 10, so a change of value is never lost.
weight_cancel :
    (a b i x y : ℕ)
    → ((a + (x * weight i + b)) % 10 ≡ (a + (y * weight i + b)) % 10) ↔ (x % 10 ≡ y % 10)
weight_cancel a b i x y = elim (weight-cases i) [
  | inl e ↦ rw e (omega arith)
  | inr (inl e) ↦ rw e (omega arith)
  | inr (inr e) ↦ rw e (omega arith)
]

-- Two texts that differ in one character have the same check digit exactly if the values of the
-- two characters are the same modulo 10.
check_digit_substitution :
    (s t : Text) (c d : ℕ)
    → (check_digit (s ++ (c ∷ t)) ≡ check_digit (s ++ (d ∷ t)))
      ↔ (char_value c % 10 ≡ char_value d % 10)
unfolding check_digit
check_digit_substitution s t c d = (to, from)
  where
    same :
        ((weighted_sum 0 (s ++ (c ∷ t))) % 10 ≡ (weighted_sum 0 (s ++ (d ∷ t))) % 10)
        ↔ (char_value c % 10 ≡ char_value d % 10)
    same =
        rw (weighted_sum-append 0 s (c ∷ t), weighted_sum-append 0 s (d ∷ t))
          (unfold weighted_sum in
            weight_cancel (weighted_sum 0 s) (weighted_sum (0 + length s + 1) t) (0 + length s)
              (char_value c) (char_value d))

    to :
        check_digit (s ++ (c ∷ t)) ≡ check_digit (s ++ (d ∷ t))
        → char_value c % 10 ≡ char_value d % 10
    to e = same.0 (ground arith)

    from :
        char_value c % 10 ≡ char_value d % 10
        → check_digit (s ++ (c ∷ t)) ≡ check_digit (s ++ (d ∷ t))
    from e = ap (λ n. (n + 48) ∷ []) (same.1 e)
