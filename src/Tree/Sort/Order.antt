-- ===== src/Tree/Sort/Order.antt =====
-- Sorted by the positions of their ids, the children stand in the order of the list of ids.
use leafwiki.Base.{
  ℕ, suc, ◌≤◌, ◌≡◌, ◌≢◌, refl, sym, ap, subst, ◌∙◌, inl, inr, String, Bool, true, false, not, List,
  [], ◌∷◌, none, arith, length, some_of, str_eq, eq_iff, Bool-cases, Bool-ext,
}
use leafwiki.Base.Members.{mem, NoRepeat}
use leafwiki.Base.Full.{mem_of_full}
use leafwiki.Tree.Node.{Ref}
use leafwiki.Tree.State.{Heap}
use leafwiki.Tree.Positions.{sort_stable, or_position}
use leafwiki.Tree.Positions.Members.{mem-sort_stable}
use leafwiki.Tree.Sort.{has_child_id, has_duplicate, order_positions, order_key}
use leafwiki.Tree.Sort.Strict.{IsStrict, IsStrict-Apart, IsStrict-unique, sort_stable-IsStrict}

abbrev occurs : String → List String → Bool
occurs id ids = some_of (λ other. str_eq other id) ids

order_positions_absent :
    (i : ℕ) (ids : List String) (id : String)
    → occurs id ids ≡ false
    → order_positions i ids id ≡ none
unfolding order_positions some_of
order_positions_absent i [] id e = refl
order_positions_absent i (x ∷ ids) id e = ground (arith, order_positions_absent (suc i) ids id)

order_positions_present :
    (i : ℕ) (ids : List String) (id : String)
    → occurs id ids ≡ true
    → order_positions i ids id ≢ none
unfolding order_positions some_of
order_positions_present i [] id e = ground arith
order_positions_present i (x ∷ ids) id e = ground (arith, order_positions_present (suc i) ids id)

module _ (h : Heap) where
  abbrev pub ids_of : List Ref → List String
  ids_of [] = []
  ids_of (c ∷ cs) = (h c).id ∷ ids_of cs

  pub length-ids_of : (cs : List Ref) → length (ids_of cs) ≡ length cs
  length-ids_of [] = refl
  length-ids_of (c ∷ cs) = omega (arith, length-ids_of cs)

  occurs-ids_of : (c : Ref) (cs : List Ref) → mem c cs ≡ true → occurs (h c).id (ids_of cs) ≡ true
  unfolding mem some_of
  occurs-ids_of c [] m = m
  occurs-ids_of c (d ∷ cs) m = ground (arith, occurs-ids_of c cs, eq_iff (h d).id (h c).id)

  NoRepeat-ids_of : (cs : List Ref) → has_duplicate (ids_of cs) ≡ false → NoRepeat cs
  unfolding has_duplicate
  NoRepeat-ids_of [] e = tt
  NoRepeat-ids_of (c ∷ cs) e =
      (ground (arith, occurs-ids_of c cs), NoRepeat-ids_of cs (ground arith))

  has_child_id-child :
      (cs : List Ref) (id : String)
      → has_child_id h cs id ≡ true
      → (c : Ref) × (mem c cs ≡ true) × ((h c).id ≡ id)
  unfolding has_child_id some_of mem
  has_child_id-child [] id e = absurd (ground arith)
  has_child_id-child (c ∷ cs) id e = elim (Bool-cases (str_eq (h c).id id)) [
    | inl s ↦ (c, ground arith, (eq_iff (h c).id id).0 s)
    | inr s ↦
        let (d, m, q) = has_child_id-child cs id (ground (arith, s)) in (d, ground (arith, m), q)
  ]

  -- the children that the ids name, in their order
  named_children :
      (cs : List Ref) (ids : List String)
      → some_of (λ id. not (has_child_id h cs id)) ids ≡ false
      → (ys : List Ref) × (ids_of ys ≡ ids) × ((y : Ref) → mem y ys ≡ true → mem y cs ≡ true)
  unfolding some_of mem
  named_children cs [] e = ([], refl, λ y m. absurd (ground (arith, m)))
  named_children cs (id ∷ ids) e =
      let (c, m, q) = has_child_id-child cs id (ground arith) in
      let (ys, p, s) = named_children cs ids (ground arith) in
      (c ∷ ys, cc (p, q), λ y k. ground (arith, s y, m))

  IsStrict-order :
      (key : Ref → ℕ) (i : ℕ) (ys : List Ref)
      → has_duplicate (ids_of ys) ≡ false
      → ((y : Ref)
          → mem y ys ≡ true
          → key y ≡ or_position (order_positions i (ids_of ys) (h y).id) 0)
      → IsStrict key ys × ((y : Ref) → mem y ys ≡ true → i ≤ key y)
  unfolding has_duplicate mem order_positions
  IsStrict-order key i [] d k = (tt, λ y m. absurd (ground (arith, m)))
  IsStrict-order key i (y ∷ ys) d k =
      let absent = order_positions_absent (suc i) (ids_of ys) (h y).id (ground arith) in
      let first : key y ≡ i = ground (arith, k y, absent, eq_iff (h y).id (h y).id) in
      let (strict, above) = IsStrict-order key (suc i) ys (ground arith) (λ z m. ground (
        arith,
        k z,
        m,
        order_positions_present (suc i) (ids_of ys) (h z).id (occurs-ids_of z ys m),
      )) in
      ((λ z m. ground (arith, first, above z m), strict), λ z m. ground (arith, first, m, above z))

  module _ (cs : List Ref) (ids : List String) (once : NoRepeat cs)
      (same_length : length ids ≡ length cs)
      (all_named : some_of (λ id. not (has_child_id h cs id)) ids ≡ false)
      (no_duplicate : has_duplicate ids ≡ false) where
    pub ids_of-sort_stable : ids_of (sort_stable (order_key h ids) cs) ≡ ids
    ids_of-sort_stable =
        let (ys, p, s) = named_children cs ids all_named in
        let fresh = subst (λ l. has_duplicate l ≡ false) (sym p) no_duplicate in
        let key = order_key h ids in
        let full =
          mem_of_full ys cs (NoRepeat-ids_of ys fresh) s
            (omega (arith, length-ids_of ys, ap length p, same_length)) in
        let same = λ (x : Ref). Bool-ext (mem x ys) (mem x cs) (s x) (full x) in
        let strict =
          IsStrict-order key 0 ys fresh
            (λ y m. ap (λ l. or_position (order_positions 0 l (h y).id) 0) (sym p)) in
        let sorted =
          sort_stable-IsStrict key cs once
            (λ x y m n. IsStrict-Apart key ys strict.0 x y (full x m) (full y n)) in
        ap ids_of (
          IsStrict-unique key (sort_stable key cs) ys sorted strict.0
            (λ x. mem-sort_stable x key cs ∙ sym (same x)))
        ∙ p
