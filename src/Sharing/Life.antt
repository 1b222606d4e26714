-- ===== src/Sharing/Life.antt =====
-- The life of a share link: from its creation to its revocation.
use leafwiki.Base.{
  ℕ, ◌≡◌, ◌≢◌, refl, sym, ap, subst, ◌∙◌, inl, inr, String, Bool, true, false, not, ◌||◌, List, [],
  ◌∷◌, Option, none, some, arith, str_eq, eq_iff, keep, All, Option-cases, Bool-cases,
}
use leafwiki.Base.Text.{Text}
use leafwiki.Tree.Node.{Ref}
use leafwiki.Tree.State.{Check}
use leafwiki.Sharing.{
  ShareLink, Grant, CreateShareLinkInput, given, QueryAnswer, row, no_row, broken, Database,
  ShareLinkStore, expired, expiry_is_past, looks_like_token, with_db, insert_link, delete_link,
  check_input, new_link, create, revoke, grant_of, resolve, tree_root_id,
}
use leafwiki.Sharing.Table.{first_of_hash, IsTable, first_of_hash-All, first_of_hash-append}
use leafwiki.Sharing.Shown.{Call, OneMakes, run, rows_of, run-All, resolved}

All-keep_out :
    (id : String) (ls : List ShareLink)
    → All (λ l. str_eq l.id id ≡ false) (keep (λ l. not (str_eq l.id id)) ls)
unfolding keep
All-keep_out id [] = tt
All-keep_out id (l ∷ ls) = ground (arith, All-keep_out id ls)

expired_same : (l : ShareLink) (now : ℕ) → expired l now ≡ expiry_is_past l.expires_at now
unfolding expired
expired_same l now = elim (Option-cases l.expires_at) [
  | inl n ↦ ground (arith, n)
  | inr (e, n) ↦ ground (arith, n)
]

grant_current :
    (l : ShareLink) (now : ℕ)
    → expired l now ≡ false
    → (str_eq l.page_id "" || str_eq l.page_id tree_root_id) ≡ false
    → grant_of (row l) now
      ≡ given (record {
        share_id = l.id;
        page_id = l.page_id;
        include_descendants = l.include_descendants;
      })
unfolding grant_of
grant_current l now e p = ground (arith, e, p)

module _ {S : Type 0} (database : Database S) (rows : S → List ShareLink)
    (table : IsTable database rows) (hash : Text → String) where
  asked :
      (decodes : Text → Bool) (token : Text) (now : ℕ) (s : ShareLinkStore S) (d : S)
      → looks_like_token decodes token ≡ true
      → s.suspended ≡ false
      → s.db ≡ some d
      → resolve database decodes hash token now s
        ≡ grant_of (database.select_by_token_hash (hash token) d) now
  unfolding resolve
  asked decodes token now s d looks b n = ground (arith, looks, b, n)

  module _ (id : String) (s : ShareLinkStore S) (done : (revoke database id s).1 ≡ given tt) where
    was_open : (d : S) × (s.suspended ≡ false) × (s.db ≡ some d)
    unfolding revoke with_db
    was_open = elim (Bool-cases s.suspended) [
      | inl b ↦ absurd (ground (arith, b, done))
      | inr b ↦ elim (Option-cases s.db) [
        | inl n ↦ absurd (ground (arith, b, n, done))
        | inr (d, n) ↦ (d, b, n)
      ]
    ]

    gone : rows_of rows (revoke database id s).0 ≡ keep (λ l. not (str_eq l.id id)) (rows_of rows s)
    unfolding revoke with_db delete_link
    gone =
        let (d, b, n) = was_open in
        elim (Option-cases (database.delete_by_id id d).1) [
          | inl e ↦ ground (arith, b, n, e, table.deleted id d)
          | inr (m, e) ↦ absurd (ground (arith, b, n, e, done))
        ]

    -- On a database that does what the documentation of SQL says, after a `Revoke` that returns no
    -- error, whatever calls of `Create`, `Revoke`, `PauseForSwap` and `Close` come next, where the pages
    -- may be others at each `Create` and a call may fail, no token resolves to the link of that id, if
    -- no later `Create` makes a link of the same id.
    pub revoked_stays_out :
        (decodes : Text → Bool) (cs : List Call) (token : Text) (now : ℕ) (g : Grant)
        → ((l : ShareLink) → OneMakes hash cs l → str_eq l.id id ≡ false)
        → resolve database decodes hash token now (run database hash cs (revoke database id s).0)
          ≡ given g
        → g.share_id ≢ id
    revoked_stays_out decodes cs token now g others e same =
        let after = run database hash cs (revoke database id s).0 in
        let (l, f, i) = resolved database rows table hash decodes token now after g e in
        let (p, h) =
          first_of_hash-All (λ x. str_eq x.id id ≡ false) (hash token) (rows_of rows after) l
            (run-All database rows table hash (λ x. str_eq x.id id ≡ false) cs
              (revoke database id s).0 others
              (subst (All (λ x. str_eq x.id id ≡ false)) (sym gone)
                (All-keep_out id (rows_of rows s))))
            f in
        ground (arith, p, i.same_share, same, eq_iff l.id id)

  module _ (find : String → Check Ref) (i : CreateShareLinkInput) (now : ℕ) (new_id : Option String)
      (new_token : Option Text) (s : ShareLinkStore S) (id : String) (token : Text)
      (done : (create database hash find i now new_id new_token s).1 ≡ given (id, token)) where
    abbrev link : ShareLink
    link = new_link hash i now id token

    abbrev made : ShareLinkStore S
    made = (create database hash find i now new_id new_token s).0

    -- The conditions under which a creation comes to the database.
    accepted : check_input find i now ≡ none
    unfolding create
    accepted = elim (Option-cases (check_input find i now)) [
      | inl c ↦ c
      | inr (e, c) ↦ absurd (ground (arith, c, done))
    ]

    own_id : (new_id ≡ some id) × (new_token ≡ some token)
    unfolding create with_db insert_link
    own_id = elim (Option-cases new_id) [
      | inl p ↦ absurd (ground (arith, accepted, p, done))
      | inr (k, p) ↦ elim (Option-cases new_token) [
        | inl q ↦ absurd (ground (arith, accepted, p, q, done))
        | inr (w, q) ↦ (ground (arith, accepted, p, q, done), ground (arith, accepted, p, q, done))
      ]
    ]

    is_open : (d : S) × (s.suspended ≡ false) × (s.db ≡ some d)
    unfolding create with_db
    is_open = elim (Bool-cases s.suspended) [
      | inl b ↦ absurd (ground (arith, accepted, own_id, b, done))
      | inr b ↦ elim (Option-cases s.db) [
        | inl n ↦ absurd (ground (arith, accepted, own_id, b, n, done))
        | inr (d, n) ↦ (d, b, n)
      ]
    ]

    stored_in :
        (d : S) × (made.suspended ≡ false)
        × (made.db ≡ some d)
        × (first_of_hash (hash token) (rows d) ≡ some link)
    unfolding create with_db insert_link
    stored_in =
        let (d, b, n) = is_open in
        elim (Option-cases (database.insert link d).1) [
          | inr (m, e) ↦ absurd (ground (arith, accepted, own_id, b, n, e, done))
          | inl e ↦
              let (r, x, y) = table.inserted link d e in
              (
                (database.insert link d).0,
                ground (arith, accepted, own_id, b, n, e),
                ground (arith, accepted, own_id, b, n, e),
                ap (first_of_hash (hash token)) r
                    ∙ first_of_hash-append (hash token) (rows d) link y refl,
              )
        ]

    page_ok : (str_eq i.page_id "" || str_eq i.page_id tree_root_id) ≡ false
    unfolding check_input
    page_ok = ground (arith, accepted)

    abbrev granted : Grant
    granted = record {
      share_id = id;
      page_id = i.page_id;
      include_descendants = i.include_descendants;
    }

    grant_link :
        (later : ℕ)
        → expiry_is_past i.expires_at later ≡ false
        → grant_of (row link) later ≡ given granted
    grant_link later open_end =
        grant_current link later (expired_same link later ∙ open_end) page_ok

    -- The token that a `Create` returns resolves to the page that was asked for, as long as the link has
    -- not expired, if the token looks like one and the database can be read.
    pub created_resolves :
        (decodes : Text → Bool) (later : ℕ)
        → looks_like_token decodes token ≡ true
        → ((d : S) (m : String) → database.select_by_token_hash (hash token) d ≢ broken m)
        → expiry_is_past i.expires_at later ≡ false
        → resolve database decodes hash token later made ≡ given granted
    created_resolves decodes later looks reads open_end =
        let (d, b, n, f) = stored_in in
        found d b n f (database.select_by_token_hash (hash token) d) refl
      where
        found :
            (d : S)
            → made.suspended ≡ false
            → made.db ≡ some d
            → first_of_hash (hash token) (rows d) ≡ some link
            → (x : QueryAnswer) → database.select_by_token_hash (hash token) d ≡ x
            → resolve database decodes hash token later made ≡ given granted
        found d b n f no_row e = absurd (cc (table.absent (hash token) d e, f))
        found d b n f (broken m) e = absurd (reads d m e)
        found d b n f (row l) e =
            let own : l ≡ link = cc (table.selected (hash token) d l e, f) in
            asked decodes token later made d looks b n
            ∙ (ap (λ x. grant_of x later) (e ∙ ap row own) ∙ grant_link later open_end)
