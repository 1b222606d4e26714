-- ===== src/Base/Decimal.antt =====
-- `%d` of `fmt.Sprintf` for numbers that are not negative.
use leafwiki.Base.Tests.{ltb, ltb→ge, if◌then◌else◌, Bool-cases}
use leafwiki.Base.Lists.{All}
use leafwiki.Base.Text.{Text, to_lower}
use Prim.Native.Nat.{ℕ, zero, suc, ◌+◌, ◌-◌, ◌*◌, ◌/◌, ◌%◌, ◌≤◌, ◌<◌}
use mathlib.Core.Path.{◌≡◌, refl, ap, ◌∙◌, sym}
use mathlib.Core.Logic.{inl, inr, ◌≢◌}
use mathlib.Core.List.{[], ◌∷◌}
use native.Mathlib.Omega.{arith}

-- The digits of `n` in front of `out`; the fuel bounds the rounds, and `suc n` is enough.
unfoldable pub digits : ℕ → ℕ → Text → Text
digits zero n out = out
digits (suc f) n out =
    let rest = digits f (n / 10) ((b'0' + n % 10) ∷ out) in
    if ltb n 10 then (b'0' + n) ∷ out else rest

unfoldable pub format_int : ℕ → Text
unfolding digits
format_int n = digits (suc n) n []

-- The number that a text of digits stands for, read behind the number `v`.
unfoldable pub value_from : ℕ → Text → ℕ
value_from v [] = v
value_from v (c ∷ s) = value_from (v * 10 + (c - b'0')) s

value_from-digits :
    (f n : ℕ) (out : Text) → n < f → value_from 0 (digits f n out) ≡ value_from n out
unfolding digits value_from
value_from-digits zero n out h = absurd (omega arith)
value_from-digits (suc f) n out h = elim (Bool-cases (ltb n 10)) [
  | inl e ↦ rw e (ap (λ v. value_from v out) (omega arith))
  | inr e ↦ rw e (
      value_from-digits f (n / 10) ((b'0' + n % 10) ∷ out) (omega (arith, ltb→ge n 10 e))
      ∙ ap (λ v. value_from v out) (omega arith))
]

-- Different numbers print differently.
pub format_int-injective : (a b : ℕ) → format_int a ≡ format_int b → a ≡ b
unfolding format_int value_from
format_int-injective a b e =
    sym (value_from-digits (suc a) a [] (omega arith))
    ∙ ap (value_from 0) e
    ∙ value_from-digits (suc b) b [] (omega arith)

abbrev pub IsDigit : ℕ → Type 0
IsDigit c = (b'0' ≤ c) × (c ≤ b'9')

digits-IsDigit : (f n : ℕ) (out : Text) → n < f → All IsDigit out → All IsDigit (digits f n out)
unfolding digits
digits-IsDigit zero n out h d = d
digits-IsDigit (suc f) n out h d = ground (arith, digits-IsDigit f (n / 10) ((b'0' + n % 10) ∷ out))

pub format_int-IsDigit : (n : ℕ) → All IsDigit (format_int n)
unfolding format_int
format_int-IsDigit n = digits-IsDigit (suc n) n [] (omega arith) tt

digits-ne-nil : (f n : ℕ) (out : Text) → n < f → digits f n out ≢ []
unfolding digits
digits-ne-nil zero n out h = absurd (omega arith)
digits-ne-nil (suc zero) n out h = ground arith
digits-ne-nil (suc (suc f)) n out h =
    ground (arith, digits-ne-nil (suc f) (n / 10) ((b'0' + n % 10) ∷ out))

pub format_int-ne-nil : (n : ℕ) → format_int n ≢ []
unfolding format_int
format_int-ne-nil n = digits-ne-nil (suc n) n [] (omega arith)

-- Folding the case of digits changes nothing.
pub to_lower-IsDigit : (s : Text) → All IsDigit s → to_lower s ≡ s
unfolding to_lower
to_lower-IsDigit [] h = refl
to_lower-IsDigit (c ∷ s) (d, h) = ground (arith, to_lower-IsDigit s h)
