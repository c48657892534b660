-- ===== src/Base/Decimal.antt =====
-- Decimal digits: Go's `strconv.Itoa` and the value of a run of digits.
use Prim.Native.Nat.{ℕ, zero, suc, ◌+◌, ◌-◌, ◌*◌, ◌/◌, ◌%◌, ◌≤◌, ◌<◌}
use mathlib.Core.Path.{◌≡◌, refl, ◌∙◌}
use mathlib.Core.Bool.{Bool, true, false, ◌&&◌}
use mathlib.Core.List.{[], ◌∷◌, ◌++◌}
use native.Mathlib.Omega.{arith}
use native.Mathlib.Decide.{dec_lt}
use erdc_hpc_scripts.Base.Tests.{leb, ltb, lt→ltb}
use erdc_hpc_scripts.Base.Lists.{All, All-append}
use erdc_hpc_scripts.Base.Strings.{Text}

-- The class `\d` of a pattern: '0' to '9'.
abbrev pub is_digit : ℕ → Bool
is_digit c = leb 48 c && leb c 57

abbrev pub AreDigits : Text → Type 0
AreDigits = All (λ c. is_digit c ≡ true)

unfoldable pub number_from : ℕ → Text → ℕ
number_from n [] = n
number_from n (c ∷ s) = number_from (n * 10 + (c - 48)) s

-- The number that digits stand for.
abbrev pub number : Text → ℕ
number s = number_from 0 s

-- The digits of a number, the last one first; a number has fewer digits than the fuel `suc n`.
unfoldable pub digits : ℕ → ℕ → Text
digits zero n = []
digits (suc fuel) n = elim (ltb n 10) [
  | true ↦ (48 + n) ∷ []
  | false ↦ digits fuel (n / 10) ++ (48 + n % 10) ∷ []
]

unfoldable pub itoa : ℕ → Text
unfolding digits
itoa n = digits (suc n) n

pub digits_one : (fuel n : ℕ) → n < 10 → digits (suc fuel) n ≡ (48 + n) ∷ []
unfolding digits
digits_one fuel n h = rw (lt→ltb n 10 h, digits) refl

pub digits_more :
    (fuel n : ℕ) → 10 ≤ n → digits (suc fuel) n ≡ digits fuel (n / 10) ++ (48 + n % 10) ∷ []
unfolding digits
digits_more fuel n h = let e : ltb n 10 ≡ false = ground arith in rw (e, digits) refl

number_from-append :
    (n : ℕ) (s : Text) (c : ℕ) → number_from n (s ++ c ∷ []) ≡ number_from n s * 10 + (c - 48)
unfolding number_from
number_from-append n [] c = refl
number_from-append n (d ∷ s) c = number_from-append (n * 10 + (d - 48)) s c

number-digits : (fuel n : ℕ) → n < fuel → number (digits fuel n) ≡ n
unfolding number_from digits
number-digits zero n h = absurd (omega arith)
number-digits (suc fuel) n h = elim (dec_lt n 10) [
  | yes small ↦ rw (lt→ltb n 10 small, digits) (omega arith)
  | no large ↦
      let e : ltb n 10 ≡ false = ground arith in
      rw (e, digits)
        (number_from-append 0 (digits fuel (n / 10)) (48 + n % 10)
          ∙ omega (arith, number-digits fuel (n / 10) (omega arith)))
]

digits-AreDigits : (fuel n : ℕ) → AreDigits (digits fuel n)
unfolding digits
digits-AreDigits zero n = tt
digits-AreDigits (suc fuel) n = elim (dec_lt n 10) [
  | yes small ↦ rw (lt→ltb n 10 small, digits) (ground arith, tt)
  | no large ↦
      let e : ltb n 10 ≡ false = ground arith in
      rw (e, digits)
        (All-append _ (digits fuel (n / 10)) _ (digits-AreDigits fuel (n / 10)) (ground arith, tt))
]

-- The digits of a number stand for it.
pub number-itoa : (n : ℕ) → number (itoa n) ≡ n
unfolding itoa
number-itoa n = number-digits (suc n) n (omega arith)

pub itoa-AreDigits : (n : ℕ) → AreDigits (itoa n)
unfolding itoa
itoa-AreDigits n = digits-AreDigits (suc n) n
