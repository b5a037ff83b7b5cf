-- ===== src/Prelude/Digits.antt =====
-- The decimal print of a number: its code points, and that reading them back gives the number.
use Prim.Native.Nat.{ℕ, zero, suc, ◌+◌, ◌-◌, ◌*◌, ◌/◌, ◌%◌, ◌≤◌, ◌<◌}
use Prim.Native.Char.{code}
use Prim.Native.String
use Prim.Native.String.append
use Prim.Native.String.{String}
use mathlib.Core.Path.{◌≡◌, refl, ap, ◌∙◌}
use mathlib.Core.Logic.{◌≢◌, inl, inr}
use mathlib.Core.List.{List, [], ◌∷◌, ◌++◌}
use native.Mathlib.Omega.{arith}
use nutanix_vma.Prelude.Lists.{All}
use nutanix_vma.Prelude.Tests.{ltb, ltb→lt, ltb→ge, lt→ltb, Bool-cases}
use nutanix_vma.Prelude.Words.{codes, concat, half_word, digit, digits, decimal, decimal64}

-- The number that decimal digits stand for, read behind `n`.
unfoldable pub number_from : ℕ → List ℕ → ℕ
number_from n [] = n
number_from n (c ∷ s) = number_from (n * 10 + (c - b'0')) s

abbrev pub IsDigit : ℕ → Type 0
IsDigit c = (b'0' ≤ c) × (c ≤ b'9')

pub codes-append : (s t : String) → codes (String.◌++◌ s t) ≡ codes s ++ codes t
codes-append String.[] t = ap codes (append.nil t)
codes-append (String.◌∷◌ c s) t =
    ap codes (append.cons c s t) ∙ ap (λ x. code c ∷ x) (codes-append s t)

abbrev pub all_codes : List String → List ℕ
all_codes [] = []
all_codes (s ∷ ss) = codes s ++ all_codes ss

pub codes-concat : (ss : List String) → codes (concat ss) ≡ all_codes ss
codes-concat [] = refl
codes-concat (s ∷ ss) = codes-append s (concat ss) ∙ ap (λ x. codes s ++ x) (codes-concat ss)

codes-digit : (d : ℕ) → d < 10 → codes (digit d) ≡ (b'0' + d) ∷ []
unfolding digit
codes-digit zero h = refl
codes-digit (suc zero) h = refl
codes-digit (suc (suc zero)) h = refl
codes-digit (suc (suc (suc zero))) h = refl
codes-digit (suc (suc (suc (suc zero)))) h = refl
codes-digit (suc (suc (suc (suc (suc zero))))) h = refl
codes-digit (suc (suc (suc (suc (suc (suc zero)))))) h = refl
codes-digit (suc (suc (suc (suc (suc (suc (suc zero))))))) h = refl
codes-digit (suc (suc (suc (suc (suc (suc (suc (suc zero)))))))) h = refl
codes-digit (suc (suc (suc (suc (suc (suc (suc (suc (suc zero))))))))) h = refl
codes-digit (suc (suc (suc (suc (suc (suc (suc (suc (suc (suc d)))))))))) h = absurd (omega arith)

-- A digit in front of a text.
codes-digit-append :
    (d : ℕ) (out : String) → d < 10 → codes (String.◌++◌ (digit d) out) ≡ (b'0' + d) ∷ codes out
codes-digit-append d out h = codes-append (digit d) out ∙ ap (λ x. x ++ codes out) (codes-digit d h)

number_from-digits :
    (f n : ℕ) (out : String)
    → n < f
    → number_from 0 (codes (digits f n out)) ≡ number_from n (codes out)
unfolding digits
number_from-digits zero n out h = absurd (omega arith)
number_from-digits (suc f) n out h = elim (Bool-cases (ltb n 10)) [
  | inl e ↦
      rw (e, codes-digit-append n out (ltb→lt n 10 e))
        (unfold number_from in ap (λ x. number_from x (codes out)) (omega arith))
  | inr e ↦
      rw
        (
          e,
          number_from-digits f (n / 10) (String.◌++◌ (digit (n % 10)) out)
              (omega (arith, h, ltb→ge n 10 e)),
          codes-digit-append (n % 10) out (omega arith),
        )
        (unfold number_from in ap (λ x. number_from x (codes out)) (omega arith))
]

digits-IsDigit :
    (f n : ℕ) (out : String) → All IsDigit (codes out) → All IsDigit (codes (digits f n out))
unfolding digits
digits-IsDigit zero n out h = h
digits-IsDigit (suc f) n out h = elim (Bool-cases (ltb n 10)) [
  | inl e ↦
      rw (e, codes-digit-append n out (ltb→lt n 10 e))
        ((omega arith, omega (arith, ltb→lt n 10 e)), h)
  | inr e ↦ rw e (
      digits-IsDigit f (n / 10) (String.◌++◌ (digit (n % 10)) out)
        (rw (codes-digit-append (n % 10) out (omega arith)) ((omega arith, omega arith), h)))
]

pub number_from-decimal : (n : ℕ) → number_from 0 (codes (decimal n)) ≡ n
unfolding decimal number_from
number_from-decimal n = number_from-digits (suc n) n "" (omega arith)

-- A number that is not negative, printed and read back.
pub number_from-decimal64 : (n : ℕ) → n < half_word → number_from 0 (codes (decimal64 n)) ≡ n
unfolding decimal64 decimal number_from
number_from-decimal64 n h =
    rw (lt→ltb n half_word h) (number_from-digits (suc n) n "" (omega arith))

pub decimal64-IsDigit : (n : ℕ) → n < half_word → All IsDigit (codes (decimal64 n))
unfolding decimal64 decimal
decimal64-IsDigit n h = rw (lt→ltb n half_word h) (digits-IsDigit (suc n) n "" tt)

digits-ne-nil : (f n : ℕ) (out : String) → n < f → codes (digits f n out) ≢ []
unfolding digits
digits-ne-nil zero n out h = absurd (omega arith)
digits-ne-nil (suc f) n out h = elim (Bool-cases (ltb n 10)) [
  | inl e ↦ rw (e, codes-digit-append n out (ltb→lt n 10 e)) (λ q. cc)
  | inr e ↦ rw e (
      digits-ne-nil f (n / 10) (String.◌++◌ (digit (n % 10)) out) (omega (arith, h, ltb→ge n 10 e)))
]

pub decimal64-ne-nil : (n : ℕ) → n < half_word → codes (decimal64 n) ≢ []
unfolding decimal64 decimal
decimal64-ne-nil n h = rw (lt→ltb n half_word h) (digits-ne-nil (suc n) n "" (omega arith))

pub decimal-IsDigit : (n : ℕ) → All IsDigit (codes (decimal n))
unfolding decimal
decimal-IsDigit n = digits-IsDigit (suc n) n "" tt
