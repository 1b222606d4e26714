-- ===== src/Base/Full.antt =====
-- A list without repeats that is as long as one that holds its members holds all of those.
use Prim.Native.Nat.{ℕ, suc, ◌≤◌}
use mathlib.Core.Path.{◌≡◌, refl}
use mathlib.Core.Bool.{true, false}
use mathlib.Core.List.{List, [], ◌∷◌}
use native.Mathlib.Omega.{arith}
use leafwiki.Base.Tests.{◌==◌, if◌then◌else◌}
use leafwiki.Base.Lists.{length}
use leafwiki.Base.Members.{mem, NoRepeat}

erase : ℕ → List ℕ → List ℕ
erase y [] = []
erase y (c ∷ cs) = let rest = erase y cs in if y == c then cs else c ∷ rest

length-erase : (y : ℕ) (cs : List ℕ) → mem y cs ≡ true → length cs ≡ suc (length (erase y cs))
unfolding erase mem
length-erase y [] m = absurd (ground arith)
length-erase y (c ∷ cs) m = ground (arith, length-erase y cs)

mem-erase : (z y : ℕ) (cs : List ℕ) → (z == y) ≡ false → mem z (erase y cs) ≡ mem z cs
unfolding erase mem
mem-erase z y [] e = refl
mem-erase z y (c ∷ cs) e = ground (arith, mem-erase z y cs)

pub mem_of_full :
    (ys cs : List ℕ)
    → NoRepeat ys
    → ((y : ℕ) → mem y ys ≡ true → mem y cs ≡ true)
    → length cs ≤ length ys
    → (x : ℕ) → mem x cs ≡ true
    → mem x ys ≡ true
unfolding mem
mem_of_full [] [] n s l x m = m
mem_of_full [] (c ∷ cs) n s l x m = absurd (omega arith)
mem_of_full (y ∷ ys) cs (f, n) s l x m = ground (
  arith,
  mem_of_full ys (erase y cs) n (λ z k. ground (arith, s z, mem-erase z y cs))
      (omega (arith, length-erase y cs (s y (ground arith)))) x,
  mem-erase x y cs,
)
