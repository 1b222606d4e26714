-- ===== src/Tree/Sort/Strict.antt =====
-- Lists that are strictly sorted by a key: two with the same members are one.
use leafwiki.Base.{ℕ, ◌<◌, ◌≡◌, ◌≢◌, refl, inl, inr, Bool-cases, true, List, [], ◌∷◌, arith, leb}
use leafwiki.Base.Members.{mem, NoRepeat}
use leafwiki.Tree.Node.{Ref}
use leafwiki.Tree.Positions.{insert_by, sort_stable}
use leafwiki.Tree.Positions.Members.{mem-insert_by, mem-sort_stable}

module _ (key : Ref → ℕ) where
  abbrev pub IsStrict : List Ref → Type 0
  IsStrict [] = Unit
  IsStrict (x ∷ xs) = ((y : Ref) → mem y xs ≡ true → key x < key y) × IsStrict xs

  abbrev pub Apart : List Ref → Type 0
  Apart xs = (x y : Ref) → mem x xs ≡ true → mem y xs ≡ true → key x ≡ key y → x ≡ y

  pub IsStrict-unique :
      (xs ys : List Ref) → IsStrict xs → IsStrict ys → ((x : Ref) → mem x xs ≡ mem x ys) → xs ≡ ys
  IsStrict-unique [] [] a b m = refl
  IsStrict-unique [] (y ∷ ys) a b m = absurd (unfold mem in ground (arith, m y))
  IsStrict-unique (x ∷ xs) [] a b m = absurd (unfold mem in ground (arith, m x))
  IsStrict-unique (x ∷ xs) (y ∷ ys) (p, a) (q, b) m =
      let same : x ≡ y = unfold mem in ground (arith, m x, m y, p y, q x) in
      let rest =
        IsStrict-unique xs ys a b (λ z. unfold mem in ground (arith, same, m z, p x, q x)) in
      cc (same, rest)

  pub IsStrict-Apart : (xs : List Ref) → IsStrict xs → Apart xs
  unfolding mem
  IsStrict-Apart [] a y z m n e = absurd (ground (arith, m))
  IsStrict-Apart (x ∷ xs) (p, a) y z m n e = ground (arith, p y, p z, IsStrict-Apart xs a y z)

  insert_by-IsStrict :
      (r : Ref) (xs : List Ref)
      → IsStrict xs
      → ((y : Ref) → mem y xs ≡ true → key r ≢ key y)
      → IsStrict (insert_by key r xs)
  unfolding insert_by
  insert_by-IsStrict r [] a n = (λ y m. unfold mem in ground arith, tt)
  insert_by-IsStrict r (x ∷ xs) (p, a) n =
      let later = insert_by-IsStrict r xs a (λ y m. n y (unfold mem in ground arith)) in
      elim (Bool-cases (leb (key r) (key x))) [
        | inl e ↦ rw e (λ y m. unfold mem in ground (arith, p y, n x), (p, a))
        | inr e ↦
            rw e (λ y m. unfold mem in ground (arith, mem-insert_by y key r xs, p y, n x), later)
      ]

  pub sort_stable-IsStrict :
      (xs : List Ref) → NoRepeat xs → Apart xs → IsStrict (sort_stable key xs)
  unfolding sort_stable
  sort_stable-IsStrict [] n a = tt
  sort_stable-IsStrict (x ∷ xs) (f, n) a =
      insert_by-IsStrict x (sort_stable key xs)
        (sort_stable-IsStrict xs n
          (λ y z p q. a y z (unfold mem in ground arith) (unfold mem in ground arith)))
        (λ y m e. unfold mem in ground (arith, mem-sort_stable y key xs, a x y))
