-- ===== src/Base/Hits.antt =====
-- How many numbers of a window pass a test; a pigeonhole for the search of a free name.
use Prim.Native.Nat.{ℕ, zero, suc, ◌+◌, ◌≤◌, ◌<◌}
use mathlib.Core.Path.{◌≡◌, refl}
use mathlib.Core.Logic.{◌⊎◌, inl, inr}
use mathlib.Core.Bool.{Bool, true, false}
use mathlib.Core.List.{List, [], ◌∷◌}
use native.Mathlib.Omega.{arith}
use leafwiki.Base.Tests.{if◌then◌else◌, Bool-cases, ◌==◌}
use leafwiki.Base.Members.{mem, NoRepeat}
use leafwiki.Base.Lists.{length, some_of}

unfoldable pub hits : (ℕ → Bool) → ℕ → ℕ → ℕ
hits p i zero = 0
hits p i (suc n) = (if p i then 1 else 0) + hits p (suc i) n

hits-or :
    (p q : ℕ → Bool) (i n : ℕ) → hits (λ k. if p k then true else q k) i n ≤ hits p i n + hits q i n
unfolding hits
hits-or p q i zero = omega arith
hits-or p q i (suc n) = ground (arith, hits-or p q (suc i) n)

hits_none : (p : ℕ → Bool) (i n : ℕ) → ((k : ℕ) → i ≤ k → p k ≡ false) → hits p i n ≡ 0
unfolding hits
hits_none p i zero h = refl
hits_none p i (suc n) h =
    ground (arith, h i (omega arith), hits_none p (suc i) n (λ k l. h k (omega arith)))

hits_unique :
    (p : ℕ → Bool) (i n : ℕ) → ((a b : ℕ) → p a ≡ true → p b ≡ true → a ≡ b) → hits p i n ≤ 1
unfolding hits
hits_unique p i zero h = omega arith
hits_unique p i (suc n) h = elim (Bool-cases (p i)) [
  | inl e ↦ ground (arith, hits_none p (suc i) n (λ k l. later k l e (Bool-cases (p k))))
  | inr e ↦ ground (arith, hits_unique p (suc i) n h)
]
  where
    later : (k : ℕ) → suc i ≤ k → p i ≡ true → (p k ≡ true) ⊎ (p k ≡ false) → p k ≡ false
    later k l e (inl f) = absurd (omega (arith, h i k e f))
    later k l e (inr f) = f

module _ {ℓ} {A : Type ℓ} (q : A → ℕ → Bool) where
  -- If each of the elements stops at most one number, a list stops at most its length.
  pub hits-some_of :
      ((x : A) (a b : ℕ) → q x a ≡ true → q x b ≡ true → a ≡ b)
      → (xs : List A) (i n : ℕ) → hits (λ k. some_of (λ x. q x k) xs) i n ≤ length xs
  unfolding some_of
  hits-some_of u [] i n = omega (arith, hits_none (λ k. false) i n (λ k l. refl))
  hits-some_of u (x ∷ xs) i n = omega (
    arith,
    hits-or (q x) (λ k. some_of (λ x. q x k) xs) i n,
    hits_unique (q x) i n (u x),
    hits-some_of u xs i n,
  )

hits-le : (p : ℕ → Bool) (i n : ℕ) → hits p i n ≤ n
unfolding hits
hits-le p i zero = omega arith
hits-le p i (suc n) = ground (arith, hits-le p (suc i) n)

hits_mono :
    (p q : ℕ → Bool) (i n : ℕ) → ((k : ℕ) → p k ≡ true → q k ≡ true) → hits p i n ≤ hits q i n
unfolding hits
hits_mono p q i zero h = omega arith
hits_mono p q i (suc n) h = ground (arith, h i, hits_mono p q (suc i) n h)

hits-mem-cons :
    (x : ℕ) (xs : List ℕ) (i n : ℕ)
    → mem x xs ≡ false
    → i ≤ x
    → x < i + n
    → suc (hits (λ k. mem k xs) i n) ≤ hits (λ k. mem k (x ∷ xs)) i n
unfolding hits mem
hits-mem-cons x xs i zero f a b = absurd (omega arith)
hits-mem-cons x xs i (suc n) f a b = elim (Bool-cases (i == x)) [
  | inl e ↦
      ground
        (arith, hits_mono (λ k. mem k xs) (λ k. mem k (x ∷ xs)) (suc i) n (λ k m. ground arith))
  | inr e ↦ ground (arith, hits-mem-cons x xs (suc i) n f (ground arith) (omega arith))
]

-- A list of numbers below `n` with no number twice has at most `n` of them.
pub length-le_of_NoRepeat :
    (n : ℕ) (xs : List ℕ) → NoRepeat xs → ((x : ℕ) → mem x xs ≡ true → x < n) → length xs ≤ n
length-le_of_NoRepeat n xs u below = omega (arith, go xs u below, hits-le (λ k. mem k xs) 0 n)
  where
    go :
        (ys : List ℕ)
        → NoRepeat ys
        → ((x : ℕ) → mem x ys ≡ true → x < n)
        → length ys ≤ hits (λ k. mem k ys) 0 n
    go [] u b = omega arith
    go (y ∷ ys) (f, u) b = omega (
      arith,
      go ys u (λ x m. b x (unfold mem in ground arith)),
      hits-mem-cons y ys 0 n f (omega arith) (omega (arith, b y (unfold mem in ground arith))),
    )
