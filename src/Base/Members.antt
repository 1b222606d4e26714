-- ===== src/Base/Members.antt =====
-- Membership of a number in a list, as a test.
use Prim.Native.Nat.{ℕ}
use mathlib.Core.Path.{◌≡◌, refl}
use mathlib.Core.Bool.{Bool, true, false, ◌||◌}
use mathlib.Core.List.{List, [], ◌∷◌, ◌++◌}
use native.Mathlib.Omega.{arith}
use leafwiki.Base.Tests.{◌==◌, if◌then◌else◌}

unfoldable pub mem : ℕ → List ℕ → Bool
mem x [] = false
mem x (y ∷ ys) = if x == y then true else mem x ys

pub mem-append : (x : ℕ) (xs ys : List ℕ) → mem x (xs ++ ys) ≡ (mem x xs || mem x ys)
unfolding mem
mem-append x [] ys = refl
mem-append x (y ∷ xs) ys = ground (arith, mem-append x xs ys)

-- No number twice.
abbrev pub NoRepeat : List ℕ → Type 0
NoRepeat [] = Unit
NoRepeat (x ∷ xs) = (mem x xs ≡ false) × NoRepeat xs

pub NoRepeat-snoc : (x : ℕ) (xs : List ℕ) → mem x xs ≡ false → NoRepeat xs → NoRepeat (xs ++ x ∷ [])
unfolding mem
NoRepeat-snoc x [] m n = (refl, tt)
NoRepeat-snoc x (y ∷ xs) m (f, n) =
    ground (arith, mem-append y xs (x ∷ []), NoRepeat-snoc x xs, f, n)
