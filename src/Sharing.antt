-- ===== src/Sharing.antt =====
-- share_link_service.go, share_link_store.go, token.go and errors.go of internal/sharing: share links.
-- The database, the hash of a token and the decoding of base64 are parameters; a token is its code
-- points, and an id that cannot be made is `none`.
pub mod Table
pub mod Shown
pub mod Life
use leafwiki.Base.{
  ℕ, ◌⊎◌, inl, inr, String, Bool, true, false, not, ◌&&◌, ◌||◌, List, [], ◌∷◌, Option, none, some,
  ◌==◌, if◌then◌else◌, str_eq, length, leb,
}
use leafwiki.Base.Text.{Text, codes, text_eq, trim_space}
use leafwiki.Tree.Node.{Ref}
use leafwiki.Tree.State.{TreeError, Check, pass, fail, page_not_found}

-- A row of the table; `none` never expires.
pub record ShareLink : Type 0 where
  pub id : String
  pub token_hash : String
  pub page_id : String
  pub include_descendants : Bool
  pub expires_at : Option ℕ
  pub created_by : Text
  pub created_at : ℕ

pub record Grant : Type 0 where
  pub share_id : String
  pub page_id : String
  pub include_descendants : Bool

pub record CreateShareLinkInput : Type 0 where
  pub page_id : String
  pub include_descendants : Bool
  pub expires_at : Option ℕ
  pub created_by : Text

-- `store_failed` has the text of an error of the database.
pub data ShareError : Type 0 where
  creator_required invalid_page invalid_expiry not_found store_unavailable : ShareError
  no_id no_token : ShareError
  tree_failed : TreeError → ShareError
  store_failed : String → ShareError

pub data Answer {ℓ} (A : Type ℓ) : Type ℓ where
  given : A → Answer A
  refused : ShareError → Answer A

-- What a query answers: a row, no row, or an error.
pub data QueryAnswer : Type 0 where
  row : ShareLink → QueryAnswer
  no_row : QueryAnswer
  broken : String → QueryAnswer

-- The statements of the store and `Close` of the database, with the text of an error, on what the
-- database is.
pub record Database (S : Type 0) : Type 0 where
  pub insert : ShareLink → S → S × Option String
  pub select_by_token_hash : String → S → QueryAnswer
  pub delete_by_id : String → S → S × Option String × ℕ
  pub close_db : S → S × Option String

pub record ShareLinkStore (S : Type 0) : Type 0 where
  pub db : Option S
  pub suspended : Bool

abbrev tree_root_id : String
tree_root_id = "root"

-- `expired`
unfoldable pub expired : ShareLink → ℕ → Bool
expired l now = elim l.expires_at [ none ↦ false | some e ↦ leb e now ]

abbrev starts_with : Text → Text → Option Text
starts_with [] s = some s
starts_with (p ∷ ps) [] = none
starts_with (p ∷ ps) (c ∷ s) = let rest = starts_with ps s in if c == p then rest else none

abbrev token_length : ℕ
token_length = 47

-- `looksLikeToken`; `decodes` says whether the text is base64 for URLs without padding
unfoldable pub looks_like_token : (Text → Bool) → Text → Bool
looks_like_token decodes token = elim (starts_with (codes "lws_") token) [
  | none ↦ false
  | some secret ↦ length token == token_length && decodes secret
]

module _ {S : Type 0} (database : Database S) where
  -- `withDB`
  unfoldable pub with_db :
      {A : Type 0} → (S → S × Answer A) → ShareLinkStore S → ShareLinkStore S × Answer A
  with_db f s = if s.suspended then (s, refused store_unavailable) else elim s.db [
    | none ↦ (s, refused store_unavailable)
    | some d ↦ let (d1, a) = f d in (record s { db = some d1 }, a)
  ]

  -- `Insert`
  unfoldable pub insert_link : ShareLink → S → S × Answer (Unit {0})
  insert_link l d =
      let (d1, e) = database.insert l d in
      elim e [ none ↦ (d1, given tt) | some m ↦ (d1, refused (store_failed m)) ]

  -- `Delete`, with the check of `Revoke` that there was a row
  unfoldable pub delete_link : String → S → S × Answer (Unit {0})
  delete_link id d =
      let (d1, e, n) = database.delete_by_id id d in
      elim e [
        | some m ↦ (d1, refused (store_failed m))
        | none ↦ if n == 0 then (d1, refused not_found) else (d1, given tt)
      ]

module _ {S : Type 0} (database : Database S) where
  -- `PauseForSwap`, with the text of its error
  unfoldable pub pause_for_swap : ShareLinkStore S → ShareLinkStore S × Option String
  pause_for_swap s = elim s.db [
    | none ↦ (record s { suspended = true }, none)
    | some d ↦ (record { db = none; suspended = true }, (database.close_db d).1)
  ]

  -- `Close`, with the text of its error: a database that cannot be closed stays in the store.
  unfoldable pub close : ShareLinkStore S → ShareLinkStore S × Option String
  close s = elim s.db [
    | none ↦ (s, none)
    | some d ↦
        let (d1, e) = database.close_db d in
        elim e [
          | none ↦ (record s { db = none }, none)
          | some m ↦ (record s { db = some d1 }, some m)
        ]
  ]

module _ {S : Type 0} where
  -- `Replace`, with what opening the database has given, or the text of its error; an error of
  -- closing the old one is only logged
  unfoldable pub replace : S ⊎ String → ShareLinkStore S → ShareLinkStore S × Option String
  replace (inl fresh) s = (record { db = some fresh; suspended = false }, none)
  replace (inr m) s = (s, some m)

abbrev expiry_is_past : Option ℕ → ℕ → Bool
expiry_is_past none now = false
expiry_is_past (some e) now = leb e now

abbrev page_error : TreeError → ShareError
page_error page_not_found = invalid_page
page_error e = tree_failed e

-- what `Resolve` makes of what the store has found
unfoldable pub grant_of : QueryAnswer → ℕ → Answer Grant
unfolding expired
grant_of no_row now = refused not_found
grant_of (broken m) now = refused (store_failed m)
grant_of (row l) now =
    if expired l now || str_eq l.page_id "" || str_eq l.page_id tree_root_id
    then refused not_found
    else given (record {
      share_id = l.id;
      page_id = l.page_id;
      include_descendants = l.include_descendants;
    })

module _ (find_page_by_id : String → Check Ref) where
  -- the checks in front of `Create`
  unfoldable pub check_input : CreateShareLinkInput → ℕ → Option ShareError
  unfolding trim_space text_eq
  check_input i now =
      if text_eq (trim_space i.created_by) []
      then some creator_required
      else if str_eq i.page_id "" || str_eq i.page_id tree_root_id
      then some invalid_page
      else elim (find_page_by_id i.page_id) [
        | fail e ↦ some (page_error e)
        | pass r ↦ if expiry_is_past i.expires_at now then some invalid_expiry else none
      ]

abbrev pub new_link : (Text → String) → CreateShareLinkInput → ℕ → String → Text → ShareLink
new_link hash i now id token = record {
  id = id;
  token_hash = hash token;
  page_id = i.page_id;
  include_descendants = i.include_descendants;
  expires_at = i.expires_at;
  created_by = i.created_by;
  created_at = now;
}

module _ {S : Type 0} (database : Database S) where
  -- `Revoke`
  unfoldable pub revoke : String → ShareLinkStore S → ShareLinkStore S × Answer (Unit {0})
  unfolding with_db delete_link
  revoke id s = with_db database (delete_link database id) s

module _ {S : Type 0} (database : Database S) (hash : Text → String)
    (find_page_by_id : String → Check Ref) where
  -- `Create`; the answer has the id of the link and the token
  unfoldable pub create :
      CreateShareLinkInput
      → ℕ
      → Option String
      → Option Text
      → ShareLinkStore S
      → ShareLinkStore S × Answer (String × Text)
  unfolding check_input with_db insert_link
  create i now new_id new_token s = elim (check_input find_page_by_id i now) [
    | some e ↦ (s, refused e)
    | none ↦ elim new_id [
      | none ↦ (s, refused no_id)
      | some id ↦ elim new_token [
        | none ↦ (s, refused no_token)
        | some token ↦
            let (s1, a) =
              with_db database (insert_link database (new_link hash i now id token)) s in
            elim a [ refused e ↦ (s1, refused e) | given u ↦ (s1, given (id, token)) ]
      ]
    ]
  ]

module _ {S : Type 0} (database : Database S) (decodes : Text → Bool) (hash : Text → String) where
  -- `Resolve`
  unfoldable pub resolve : Text → ℕ → ShareLinkStore S → Answer Grant
  unfolding looks_like_token grant_of
  resolve token now s =
      if not (looks_like_token decodes token)
      then refused not_found
      else if s.suspended
      then refused store_unavailable
      else elim s.db [
        | none ↦ refused store_unavailable
        | some d ↦ grant_of (database.select_by_token_hash (hash token) d) now
      ]
