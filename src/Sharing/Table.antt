-- ===== src/Sharing/Table.antt =====
-- What the database of the share links does, as the documentation of SQL says.
use leafwiki.Base.{
  ◌≡◌, refl, sym, subst, inl, inr, String, Bool, true, false, not, List, [], ◌∷◌, ◌++◌, Option,
  none, some, arith, if◌then◌else◌, str_eq, eq_iff, keep, some_of, All, Bool-cases,
}
use leafwiki.Sharing.{ShareLink, row, no_row, Database}

abbrev pub has_id : String → List ShareLink → Bool
has_id id = some_of (λ l. str_eq l.id id)

abbrev pub has_hash : String → List ShareLink → Bool
has_hash h = some_of (λ l. str_eq l.token_hash h)

abbrev pub first_of_hash : String → List ShareLink → Option ShareLink
first_of_hash h [] = none
first_of_hash h (l ∷ ls) = if str_eq l.token_hash h then some l else first_of_hash h ls

-- The statements on the rows of the table: an id is a primary key and a hash is unique; a statement
-- that fails, or a `Close`, changes nothing.
pub record IsTable {S : Type 0} (database : Database S) (rows : S → List ShareLink) : Type 0 where
  pub inserted :
      (l : ShareLink) (d : S)
      → (database.insert l d).1 ≡ none
      → (rows (database.insert l d).0 ≡ rows d ++ l ∷ [])
        × (has_id l.id (rows d) ≡ false)
        × (has_hash l.token_hash (rows d) ≡ false)
  pub insert_failed :
      (l : ShareLink) (d : S) (m : String)
      → (database.insert l d).1 ≡ some m
      → rows (database.insert l d).0 ≡ rows d
  pub selected :
      (h : String) (d : S) (l : ShareLink)
      → database.select_by_token_hash h d ≡ row l
      → first_of_hash h (rows d) ≡ some l
  pub absent :
      (h : String) (d : S)
      → database.select_by_token_hash h d ≡ no_row
      → first_of_hash h (rows d) ≡ none
  pub deleted :
      (id : String) (d : S)
      → (database.delete_by_id id d).1 ≡ none
      → rows (database.delete_by_id id d).0 ≡ keep (λ l. not (str_eq l.id id)) (rows d)
  pub delete_failed :
      (id : String) (d : S) (m : String)
      → (database.delete_by_id id d).1 ≡ some m
      → rows (database.delete_by_id id d).0 ≡ rows d
  pub close_failed :
      (d : S) (m : String)
      → (database.close_db d).1 ≡ some m
      → rows (database.close_db d).0 ≡ rows d

kept :
    (l : ShareLink) (ls : List ShareLink) (p : ShareLink → Bool)
    → p l ≡ true
    → keep p (l ∷ ls) ≡ l ∷ keep p ls
unfolding keep
kept l ls p e = ground (arith, e)

dropped :
    (l : ShareLink) (ls : List ShareLink) (p : ShareLink → Bool)
    → p l ≡ false
    → keep p (l ∷ ls) ≡ keep p ls
unfolding keep
dropped l ls p e = ground (arith, e)

pub All-keep :
    (P : ShareLink → Type 0) (p : ShareLink → Bool) (ls : List ShareLink)
    → All P ls
    → All P (keep p ls)
All-keep P p [] a = unfold keep in tt
All-keep P p (l ∷ ls) (a, b) =
    let rest = All-keep P p ls b in
    elim (Bool-cases (p l)) [
      | inl e ↦ subst (All P) (sym (kept l ls p e)) (a, rest)
      | inr e ↦ subst (All P) (sym (dropped l ls p e)) rest
    ]

pub first_of_hash-All :
    (P : ShareLink → Type 0) (h : String) (ls : List ShareLink) (l : ShareLink)
    → All P ls
    → first_of_hash h ls ≡ some l
    → P l × (l.token_hash ≡ h)
first_of_hash-All P h [] l a e = cc
first_of_hash-All P h (x ∷ ls) l (a, b) e = elim (Bool-cases (str_eq x.token_hash h)) [
  | inl p ↦
      let own : x ≡ l = ground (arith, e, p) in
      (subst P own a, subst (λ y. y.token_hash ≡ h) own ((eq_iff x.token_hash h).0 p))
  | inr p ↦ first_of_hash-All P h ls l b (ground (arith, e, p))
]

pub has_id-keep :
    (id : String) (ls : List ShareLink) → has_id id (keep (λ l. not (str_eq l.id id)) ls) ≡ false
unfolding keep some_of
has_id-keep id [] = refl
has_id-keep id (l ∷ ls) = ground (arith, has_id-keep id ls)

pub has_id-append :
    (id : String) (ls : List ShareLink) (l : ShareLink)
    → has_id id ls ≡ false
    → str_eq l.id id ≡ false
    → has_id id (ls ++ l ∷ []) ≡ false
unfolding some_of
has_id-append id [] l a b = ground arith
has_id-append id (x ∷ ls) l a b = ground (arith, has_id-append id ls l)

pub has_id-keep_other :
    (id other : String) (ls : List ShareLink)
    → has_id id ls ≡ false
    → has_id id (keep (λ l. not (str_eq l.id other)) ls) ≡ false
unfolding keep some_of
has_id-keep_other id other [] a = refl
has_id-keep_other id other (l ∷ ls) a = ground (arith, has_id-keep_other id other ls)

pub first_of_hash-has_id :
    (h : String) (ls : List ShareLink) (l : ShareLink)
    → first_of_hash h ls ≡ some l
    → has_id l.id ls ≡ true
unfolding some_of
first_of_hash-has_id h [] l e = cc
first_of_hash-has_id h (x ∷ ls) l e =
    ground (arith, e, first_of_hash-has_id h ls l, eq_iff x.id l.id)

pub first_of_hash-append :
    (h : String) (ls : List ShareLink) (l : ShareLink)
    → has_hash h ls ≡ false
    → l.token_hash ≡ h
    → first_of_hash h (ls ++ l ∷ []) ≡ some l
unfolding some_of
first_of_hash-append h [] l a e = ground (arith, e, eq_iff l.token_hash h)
first_of_hash-append h (x ∷ ls) l a e = ground (arith, a, first_of_hash-append h ls l, e)
