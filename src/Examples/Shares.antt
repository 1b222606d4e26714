-- ===== src/Examples/Shares.antt =====
-- A share link from its creation to its revocation, over a table that is a list.
use leafwiki.Base.{
  ◌≡◌, ◌≢◌, refl, subst, inl, inr, String, Bool, true, false, not, ◌||◌, List, [], ◌∷◌, ◌++◌, none,
  some, arith, if◌then◌else◌, str_eq, keep, some_of, Option-cases, Bool-cases,
}
use leafwiki.Base.Text.{Text, codes, text_eq, trim_space, trim_left, trim_right, is_space}
use leafwiki.Tree.Node.{Ref}
use leafwiki.Tree.State.{Check, pass, fail, page_not_found}
use leafwiki.Tree.Index.{find_page_by_id, get_node_by_id}
use leafwiki.Examples.Wiki.{wiki}
use leafwiki.Sharing.{
  ShareLink, Grant, CreateShareLinkInput, Answer, given, refused, not_found, row, no_row, broken,
  Database, ShareLinkStore, expired, looks_like_token, with_db, insert_link, delete_link, close,
  check_input, create, revoke, grant_of, resolve,
}
use leafwiki.Sharing.Table.{has_id, has_hash, first_of_hash, IsTable}
use leafwiki.Sharing.Shown.{Call, creates, closes, OneMakes, run, IsFor, granted_was_created}
use leafwiki.Sharing.Life.{revoked_stays_out, created_resolves}

abbrev table : Database (List ShareLink)
table = record {
  insert = λ l d.
      if has_id l.id d || has_hash l.token_hash d
      then (d, some "UNIQUE constraint failed")
      else (d ++ l ∷ [], none);
  select_by_token_hash = λ h d. elim (first_of_hash h d) [ none ↦ no_row | some l ↦ row l ];
  delete_by_id = λ id d. (keep (λ l. not (str_eq l.id id)) d, none, if has_id id d then 1 else 0);
  close_db = λ d. (d, some "busy");
}

table-IsTable : IsTable table (λ d. d)
table-IsTable = record {
  inserted = λ l d e. elim (Bool-cases (has_id l.id d || has_hash l.token_hash d)) [
    | inl p ↦ absurd (ground (arith, p, e))
    | inr p ↦ (ground (arith, p), ground (arith, p), ground (arith, p))
  ];
  insert_failed = λ l d m e. elim (Bool-cases (has_id l.id d || has_hash l.token_hash d)) [
    | inl p ↦ ground (arith, p)
    | inr p ↦ absurd (ground (arith, p, e))
  ];
  selected = λ h d l e. elim (Option-cases (first_of_hash h d)) [
    | inl p ↦ absurd (ground (arith, p, e))
    | inr (x, p) ↦ ground (arith, p, e)
  ];
  absent = λ h d e. elim (Option-cases (first_of_hash h d)) [
    | inl p ↦ p
    | inr (x, p) ↦ absurd (ground (arith, p, e))
  ];
  deleted = λ id d e. refl;
  delete_failed = λ id d m e. absurd (ground (arith, e));
  close_failed = λ d m e. refl;
}

abbrev token : Text
token = codes "lws_aaaaaaaaaaaaaaaaaaaaaaaaaaaaaaaaaaaaaaaaaaa"

abbrev hash : Text → String
hash t = if text_eq t token then "h1" else "h2"

abbrev find : String → Check Ref
find = find_page_by_id (wiki false)

-- when another page is there
abbrev find_later : String → Check Ref
find_later id = if str_eq id "g" || str_eq id "h" then pass 2 else fail page_not_found

abbrev fresh : ShareLinkStore (List ShareLink)
fresh = record { db = some []; suspended = false }

abbrev for_guides : CreateShareLinkInput
for_guides = record {
  page_id = "g";
  include_descendants = true;
  expires_at = some 20;
  created_by = codes "ann";
}

abbrev shared : ShareLinkStore (List ShareLink) × Answer (String × Text)
shared = create table hash find for_guides 10 (some "s1") (some token) fresh

abbrev revoked : ShareLinkStore (List ShareLink) × Answer (Unit {0})
revoked = revoke table "s1" shared.0

abbrev guides_grant : Grant
guides_grant = record { share_id = "s1"; page_id = "g"; include_descendants = true }

abbrev always : Text → Bool
always s = true

shared_tests :
    (shared.1 ≡ given ("s1", token))
    × (resolve table always hash token 19 shared.0 ≡ given guides_grant)
    × (resolve table always hash token 20 shared.0 ≡ refused not_found)
    × (revoked.1 ≡ given tt)
    × (resolve table always hash token 19 revoked.0 ≡ refused not_found)
    × (looks_like_token always token ≡ true)
unfolding create check_input with_db insert_link resolve grant_of expired looks_like_token revoke
    delete_link text_eq trim_space trim_left trim_right is_space some_of keep find_page_by_id
    get_node_by_id
shared_tests = (refl, refl, refl, refl, refl, refl)

reads : (d : List ShareLink) (m : String) → table.select_by_token_hash (hash token) d ≢ broken m
reads d m e = elim (Option-cases (first_of_hash (hash token) d)) [
  | inl p ↦ ground (arith, p, e)
  | inr (x, p) ↦ ground (arith, p, e)
]

created_resolves_example : resolve table always hash token 19 shared.0 ≡ given guides_grant
created_resolves_example =
    created_resolves table (λ d. d) table-IsTable hash find for_guides 10 (some "s1") (some token)
      fresh "s1" token shared_tests.0 always 19 shared_tests.5 reads refl

abbrev first_calls : List Call
first_calls = creates find for_guides 10 (some "s1") (some token) ∷ []

granted_was_created_example :
    (l : ShareLink) × OneMakes hash first_calls l
    × (l.token_hash ≡ hash token)
    × IsFor l 19 guides_grant
granted_was_created_example =
    granted_was_created table (λ d. d) table-IsTable hash always first_calls fresh token 19
      guides_grant refl shared_tests.1

abbrev second_token : Text
second_token = codes "lws_bbbbbbbbbbbbbbbbbbbbbbbbbbbbbbbbbbbbbbbbbbb"

abbrev second_calls : List Call
second_calls = creates find_later for_guides 12 (some "s2") (some second_token) ∷ closes ∷ []

abbrev second_grant : Grant
second_grant = record { share_id = "s2"; page_id = "g"; include_descendants = true }

second_tests :
    resolve table always hash second_token 19 (run table hash second_calls revoked.0)
    ≡ given second_grant
unfolding create check_input with_db insert_link resolve grant_of expired looks_like_token revoke
    delete_link text_eq trim_space trim_left trim_right is_space some_of keep find_page_by_id
    get_node_by_id close
second_tests = refl

second_id : (l : ShareLink) → OneMakes hash second_calls l → str_eq l.id "s1" ≡ false
second_id l (inl (id, t, p, q, c, e)) =
    let own : "s2" ≡ l.id = ground (arith, p, e) in subst (λ x. str_eq x "s1" ≡ false) own refl
second_id l (inr (inl w)) = absurd w
second_id l (inr (inr w)) = absurd w

revoked_stays_out_example : second_grant.share_id ≢ "s1"
revoked_stays_out_example =
    revoked_stays_out table (λ d. d) table-IsTable hash "s1" shared.0 shared_tests.3 always
      second_calls second_token 19 second_grant second_id second_tests
