-- ===== src/Sharing/Shown.antt =====
-- Which tokens a share link service resolves after a run of its calls.
use leafwiki.Base.{
  ℕ, ◌≡◌, ◌≢◌, refl, sym, subst, ◌⊎◌, inl, inr, String, Bool, false, not, ◌||◌, List, [], ◌∷◌, ◌++◌,
  Option, none, some, arith, if◌then◌else◌, str_eq, keep, All, All-append, Option-cases, Bool-cases,
}
use leafwiki.Base.Text.{Text}
use leafwiki.Tree.Node.{Ref}
use leafwiki.Tree.State.{Check}
use leafwiki.Sharing.{
  ShareLink, Grant, CreateShareLinkInput, ShareError, given, QueryAnswer, row, no_row, broken,
  Database, ShareLinkStore, expired, with_db, insert_link, delete_link, pause_for_swap, close,
  check_input, new_link, create, revoke, grant_of, resolve, tree_root_id,
}
use leafwiki.Sharing.Table.{first_of_hash, IsTable, All-keep, first_of_hash-All}

-- The calls on a service, but for `Replace`, which brings another database. A `Create` comes with
-- what `FindPageByID` answers at that time.
pub data Call : Type 0 where
  creates : (String → Check Ref) → CreateShareLinkInput → ℕ → Option String → Option Text → Call
  revokes : String → Call
  pauses closes : Call

-- The rows of a store; a closed one has none.
abbrev pub rows_of : {S : Type 0} → (S → List ShareLink) → ShareLinkStore S → List ShareLink
rows_of rows s = elim s.db [ none ↦ [] | some d ↦ rows d ]

-- What a grant is for.
pub record IsFor (l : ShareLink) (now : ℕ) (g : Grant) : Type 0 where
  pub current : expired l now ≡ false
  pub a_page : (str_eq l.page_id "" || str_eq l.page_id tree_root_id) ≡ false
  pub same_share : g.share_id ≡ l.id
  pub same_page : g.page_id ≡ l.page_id
  pub same_reach : g.include_descendants ≡ l.include_descendants

grant_of_lem :
    (f : QueryAnswer) (now : ℕ) (g : Grant)
    → grant_of f now ≡ given g
    → (l : ShareLink) × (f ≡ row l) × IsFor l now g
unfolding grant_of
grant_of_lem no_row now g e = absurd (ground (arith, e))
grant_of_lem (broken m) now g e = absurd (ground (arith, e))
grant_of_lem (row l) now g e = (
  l,
  refl,
  record {
    current = ground (arith, e);
    a_page = ground (arith, e);
    same_share = ground (arith, e);
    same_page = ground (arith, e);
    same_reach = ground (arith, e);
  },
)

-- Does this call, if it goes well, make this link?
abbrev pub Makes : (Text → String) → Call → ShareLink → Type 0
Makes hash (creates find i now new_id new_token) l =
    (id : String) × (token : Text) × (new_id ≡ some id)
    × (new_token ≡ some token)
    × (check_input find i now ≡ none)
    × (l ≡ new_link hash i now id token)
Makes hash (revokes id) l = ⊥
Makes hash pauses l = ⊥
Makes hash closes l = ⊥

abbrev pub OneMakes : (Text → String) → List Call → ShareLink → Type 0
OneMakes hash [] l = ⊥
OneMakes hash (c ∷ cs) l = Makes hash c l ⊎ OneMakes hash cs l

module _ {S : Type 0} (database : Database S) (hash : Text → String) where
  abbrev pub step : Call → ShareLinkStore S → ShareLinkStore S
  step (creates find i now new_id new_token) s =
      (create database hash find i now new_id new_token s).0
  step (revokes id) s = (revoke database id s).0
  step pauses s = (pause_for_swap database s).0
  step closes s = (close database s).0

  abbrev pub run : List Call → ShareLinkStore S → ShareLinkStore S
  run [] s = s
  run (c ∷ cs) s = run cs (step c s)

module _ {S : Type 0} (database : Database S) (rows : S → List ShareLink)
    (table : IsTable database rows) (hash : Text → String) where
  -- the database while the store is open
  abbrev pub open_db : ShareLinkStore S → Option S
  open_db s = if s.suspended then none else s.db

  -- A revocation leaves the rows or takes out those of the id; a creation leaves them or adds one.
  pub revoked_rows :
      (id : String) (s : ShareLinkStore S)
      → (rows_of rows (revoke database id s).0 ≡ rows_of rows s)
        ⊎ (rows_of rows (revoke database id s).0
            ≡ keep (λ l. not (str_eq l.id id)) (rows_of rows s))
  revoked_rows id s = elim (Bool-cases s.suspended) [
    | inl b ↦ inl (unfold revoke in unfold with_db in ground (arith, b))
    | inr b ↦ elim (Option-cases s.db) [
      | inl n ↦ inl (unfold revoke in unfold with_db in ground (arith, b, n))
      | inr (d, n) ↦ elim (Option-cases (database.delete_by_id id d).1) [
        | inl e ↦ inr (
            unfold revoke in
            unfold with_db in unfold delete_link in ground (arith, b, n, e, table.deleted id d))
        | inr (m, e) ↦ inl (
            unfold revoke in
            unfold with_db in
            unfold delete_link in ground (arith, b, n, e, table.delete_failed id d m))
      ]
    ]
  ]

  module _ (find : String → Check Ref) (i : CreateShareLinkInput) (now : ℕ) (new_id : Option String)
      (new_token : Option Text) (s : ShareLinkStore S) where
    abbrev made : ShareLinkStore S
    made = (create database hash find i now new_id new_token s).0

    abbrev Grows : Type 0
    Grows =
        (rows_of rows made ≡ rows_of rows s)
        ⊎ ((l : ShareLink) × Makes hash (creates find i now new_id new_token) l
            × (rows_of rows made ≡ rows_of rows s ++ l ∷ []))

    refused_early :
        (e : ShareError) → check_input find i now ≡ some e → rows_of rows made ≡ rows_of rows s
    unfolding create
    refused_early e c = ground (arith, c)

    no_id_made : check_input find i now ≡ none → new_id ≡ none → rows_of rows made ≡ rows_of rows s
    unfolding create
    no_id_made c p = ground (arith, c, p)

    module _ (id : String) (c : check_input find i now ≡ none) (p : new_id ≡ some id) where
      no_token_made : new_token ≡ none → rows_of rows made ≡ rows_of rows s
      unfolding create
      no_token_made q = ground (arith, c, p, q)

      module _ (token : Text) (q : new_token ≡ some token) where
        abbrev link : ShareLink
        link = new_link hash i now id token

        shut : open_db s ≡ none → rows_of rows made ≡ rows_of rows s
        unfolding create with_db
        shut o = ground (arith, c, p, q, o)

        stored :
            (d : S)
            → s.suspended ≡ false
            → s.db ≡ some d
            → (database.insert link d).1 ≡ none
            → rows_of rows made ≡ rows_of rows s ++ link ∷ []
        unfolding create with_db insert_link
        stored d b n e = ground (arith, c, p, q, b, n, e, table.inserted link d)

        not_stored :
            (d : S) (m : String)
            → s.suspended ≡ false
            → s.db ≡ some d
            → (database.insert link d).1 ≡ some m
            → rows_of rows made ≡ rows_of rows s
        unfolding create with_db insert_link
        not_stored d m b n e = ground (arith, c, p, q, b, n, e, table.insert_failed link d m)

        grows_open : Grows
        grows_open = elim (Bool-cases s.suspended) [
          | inl b ↦ inl (shut (ground (arith, b)))
          | inr b ↦ elim (Option-cases s.db) [
            | inl n ↦ inl (shut (ground (arith, b, n)))
            | inr (d, n) ↦ elim (Option-cases (database.insert link d).1) [
              | inl e ↦ inr (link, (id, token, p, q, c, refl), stored d b n e)
              | inr (m, e) ↦ inl (not_stored d m b n e)
            ]
          ]
        ]

    created_rows : Grows
    created_rows = elim (Option-cases (check_input find i now)) [
      | inr (e, c) ↦ inl (refused_early e c)
      | inl c ↦ elim (Option-cases new_id) [
        | inl p ↦ inl (no_id_made c p)
        | inr (id, p) ↦ elim (Option-cases new_token) [
          | inl q ↦ inl (no_token_made id c p q)
          | inr (token, q) ↦ grows_open id c p token q
        ]
      ]
    ]

  paused_rows : (s : ShareLinkStore S) → rows_of rows (pause_for_swap database s).0 ≡ []
  unfolding pause_for_swap
  paused_rows s = elim (Option-cases s.db) [
    | inl n ↦ ground (arith, n)
    | inr (d, n) ↦ ground (arith, n)
  ]

  closed_rows :
      (s : ShareLinkStore S)
      → (rows_of rows (close database s).0 ≡ rows_of rows s)
        ⊎ (rows_of rows (close database s).0 ≡ [])
  unfolding close
  closed_rows s = elim (Option-cases s.db) [
    | inl n ↦ inl (ground (arith, n))
    | inr (d, n) ↦ elim (Option-cases (database.close_db d).1) [
      | inl e ↦ inr (ground (arith, n, e))
      | inr (m, e) ↦ inl (ground (arith, n, e, table.close_failed d m))
    ]
  ]

  step-All :
      (P : ShareLink → Type 0) (c : Call) (s : ShareLinkStore S)
      → ((l : ShareLink) → Makes hash c l → P l)
      → All P (rows_of rows s)
      → All P (rows_of rows (step database hash c s))
  step-All P (creates find i now new_id new_token) s k a =
      elim (created_rows find i now new_id new_token s) [
        | inl e ↦ subst (All P) (sym e) a
        | inr (l, w, e) ↦
            subst (All P) (sym e) (All-append P (rows_of rows s) (l ∷ []) a (k l w, tt))
      ]
  step-All P (revokes id) s k a = elim (revoked_rows id s) [
    | inl e ↦ subst (All P) (sym e) a
    | inr e ↦ subst (All P) (sym e) (All-keep P (λ l. not (str_eq l.id id)) (rows_of rows s) a)
  ]
  step-All P pauses s k a = subst (All P) (sym (paused_rows s)) tt
  step-All P closes s k a = elim (closed_rows s) [
    | inl e ↦ subst (All P) (sym e) a
    | inr e ↦ subst (All P) (sym e) tt
  ]

  pub run-All :
      (P : ShareLink → Type 0) (cs : List Call) (s : ShareLinkStore S)
      → ((l : ShareLink) → OneMakes hash cs l → P l)
      → All P (rows_of rows s)
      → All P (rows_of rows (run database hash cs s))
  run-All P [] s k a = a
  run-All P (c ∷ cs) s k a =
      run-All P cs (step database hash c s) (λ l w. k l (inr w))
        (step-All P c s (λ l w. k l (inl w)) a)

  closed :
      (decodes : Text → Bool) (token : Text) (now : ℕ) (s : ShareLinkStore S) (g : Grant)
      → open_db s ≡ none
      → resolve database decodes hash token now s ≢ given g
  unfolding resolve
  closed decodes token now s g o e = ground (arith, o, e)

  asked :
      (decodes : Text → Bool) (token : Text) (now : ℕ) (s : ShareLinkStore S) (g : Grant) (d : S)
      → s.suspended ≡ false
      → s.db ≡ some d
      → resolve database decodes hash token now s ≡ given g
      → grant_of (database.select_by_token_hash (hash token) d) now ≡ given g
  unfolding resolve
  asked decodes token now s g d b n e = ground (arith, b, n, e)

  -- What a resolved token says: a row of its hash that has not expired.
  pub resolved :
      (decodes : Text → Bool) (token : Text) (now : ℕ) (s : ShareLinkStore S) (g : Grant)
      → resolve database decodes hash token now s ≡ given g
      → (l : ShareLink) × (first_of_hash (hash token) (rows_of rows s) ≡ some l) × IsFor l now g
  resolved decodes token now s g e = elim (Bool-cases s.suspended) [
    | inl b ↦ absurd (closed decodes token now s g (ground (arith, b)) e)
    | inr b ↦ elim (Option-cases s.db) [
      | inl n ↦ absurd (closed decodes token now s g (ground (arith, b, n)) e)
      | inr (d, n) ↦
          let granted = asked decodes token now s g d b n e in
          let (l, x, f) =
            grant_of_lem (database.select_by_token_hash (hash token) d) now g granted in
          (l, ground (arith, n, table.selected (hash token) d l x), f)
    ]
  ]

  -- On a database that does what the documentation of SQL says, whatever calls create and revoke
  -- links, pause and close a service on an empty table, where the pages may be others at each
  -- `Create` and a call may fail: a token that it resolves has the hash of one that a `Create` has
  -- made for a page that was there then and is not the root, the grant is for that page and the link
  -- has not expired. A `Replace`, which brings another table, is not among the calls.
  pub granted_was_created :
      (decodes : Text → Bool) (cs : List Call) (s : ShareLinkStore S) (token : Text) (now : ℕ)
      (g : Grant)
      → rows_of rows s ≡ []
      → resolve database decodes hash token now (run database hash cs s) ≡ given g
      → (l : ShareLink) × OneMakes hash cs l × (l.token_hash ≡ hash token) × IsFor l now g
  granted_was_created decodes cs s token now g z e =
      let (l, f, i) = resolved decodes token now (run database hash cs s) g e in
      let (m, h) =
        first_of_hash-All (OneMakes hash cs) (hash token) (rows_of rows (run database hash cs s)) l
          (run-All (OneMakes hash cs) cs s (λ x w. w) (subst (All (OneMakes hash cs)) (sym z) tt))
          f in
      (l, m, h, i)
