-- ===== src/Auth/LoginAttempts/Bound.antt =====
-- How many attempts an account lets through.
use leafwiki.Base.{
  ℕ, suc, ◌+◌, ◌*◌, ◌≤◌, ◌<◌, ◌≡◌, refl, String, true, false, List, [], ◌∷◌, arith, ltb, leb,
  if◌then◌else◌, str_eq, ◌&&◌, eq_iff, ◌⊎◌, inl, inr, Bool-cases, subst, sym,
}
use leafwiki.Auth.LoginAttempts.{
  Tracker, LoginAttemptEntry, new_login_attempt_tracker, entry, count_attempt, record_attempt,
}

-- An attempt on an account, with the clock that it reads.
pub record Attempt : Type 0 where
  pub user_id : String
  pub now : ℕ

abbrev pub InOrder : ℕ → List Attempt → Type 0
InOrder clock [] = Unit
InOrder clock (a ∷ rest) = (clock ≤ a.now) × InOrder a.now rest

abbrev pub last_time : ℕ → List Attempt → ℕ
last_time clock [] = clock
last_time clock (a ∷ rest) = last_time a.now rest

-- How many attempts on the account were let through.
unfoldable pub let_through : String → Tracker → List Attempt → ℕ
let_through user_id t [] = 0
let_through user_id t (a ∷ rest) =
    let more = let_through user_id (record_attempt a.user_id a.now t).0 rest in
    if str_eq a.user_id user_id && (record_attempt a.user_id a.now t).1 then suc more else more

-- After `n` attempts that were let through since `first`, the entry of the account is not locked and
-- counts the attempts that set no lock, or it is locked and counts from nothing.
abbrev Tallies : ℕ → ℕ → ℕ → LoginAttemptEntry → Type 0
Tallies first n clock e =
    ((e.locked_until ≡ 0)
      × (e.failures < 5)
      × (n * 900000000000 + 5 * first ≤ 5 * clock + e.failures * 900000000000))
    ⊎ ((0 < e.locked_until)
        × (e.locked_until ≤ clock + 900000000000)
        × (n * 900000000000 + 5 * first ≤ 5 * e.locked_until))

module _ (user_id : String) (first : ℕ) where
  other_entry :
      (t : Tracker) (a : Attempt)
      → str_eq a.user_id user_id ≡ false
      → entry (record_attempt a.user_id a.now t).0 user_id ≡ entry t user_id
  unfolding record_attempt
  other_entry t a e = ground (arith, e)

  own_locked :
      (t : Tracker) (a : Attempt)
      → str_eq a.user_id user_id ≡ true
      → ltb a.now (entry t user_id).locked_until ≡ true
      → (entry (record_attempt a.user_id a.now t).0 user_id ≡ entry t user_id)
        × ((record_attempt a.user_id a.now t).1 ≡ false)
  unfolding record_attempt
  own_locked t a e k = ground (arith, e, k, eq_iff a.user_id user_id)

  own_free :
      (t : Tracker) (a : Attempt)
      → str_eq a.user_id user_id ≡ true
      → ltb a.now (entry t user_id).locked_until ≡ false
      → (entry (record_attempt a.user_id a.now t).0 user_id ≡ count_attempt a.now (entry t user_id))
        × ((record_attempt a.user_id a.now t).1 ≡ true)
  unfolding record_attempt
  own_free t a e k = ground (arith, e, k, eq_iff a.user_id user_id)

  later :
      (n clock now : ℕ) (e : LoginAttemptEntry)
      → clock ≤ now
      → Tallies first n clock e
      → Tallies first n now e
  later n clock now e l (inl (z, f, s)) = inl (z, f, omega arith)
  later n clock now e l (inr (p, b, s)) = inr (p, omega arith, s)

  counted :
      (n now : ℕ) (e : LoginAttemptEntry)
      → ltb now e.locked_until ≡ false
      → Tallies first n now e
      → Tallies first (suc n) now (count_attempt now e)
  unfolding count_attempt
  counted n now e free (inl (z, f, s)) = elim (Bool-cases (leb 5 (suc e.failures))) [
    | inl q ↦ inr (ground (arith, q), ground (arith, q), ground (arith, q))
    | inr q ↦ inl (ground (arith, q), ground (arith, q), ground (arith, q))
  ]
  counted n now e free (inr (p, b, s)) = inl (ground arith, ground arith, ground arith)

  let_through_bound :
      (attempts : List Attempt) (t : Tracker) (n clock : ℕ)
      → InOrder clock attempts
      → Tallies first n clock (entry t user_id)
      → (n + let_through user_id t attempts) * 900000000000 + 5 * first
        ≤ 5 * last_time clock attempts + 5 * 900000000000
  unfolding let_through
  let_through_bound [] t n clock o (inl (z, f, s)) = omega arith
  let_through_bound [] t n clock o (inr (p, b, s)) = omega arith
  let_through_bound (a ∷ rest) t n clock (l, o) s =
      let t' = (record_attempt a.user_id a.now t).0 in
      let s' = later n clock a.now (entry t user_id) l s in
      elim (Bool-cases (str_eq a.user_id user_id)) [
        | inr q ↦
            let kept = subst (Tallies first n a.now) (sym (other_entry t a q)) s' in
            ground (arith, q, let_through_bound rest t' n a.now o kept)
        | inl q ↦ elim (Bool-cases (ltb a.now (entry t user_id).locked_until)) [
          | inl k ↦
              let (same, stays) = own_locked t a q k in
              let kept = subst (Tallies first n a.now) (sym same) s' in
              ground (arith, q, stays, let_through_bound rest t' n a.now o kept)
          | inr k ↦
              let (new, passes) = own_free t a q k in
              let more =
                subst (Tallies first (suc n) a.now) (sym new)
                  (counted n a.now (entry t user_id) k s') in
              ground (arith, q, passes, let_through_bound rest t' (suc n) a.now o more)
        ]
      ]

-- Let the attempts on a fresh tracker read the clock in order, and none be reset. From the time
-- `first`, at or before the first attempt, to the last one, an account lets through at most five
-- attempts for each 15 minutes that have passed, and five more.
pub let_through_bounded :
    (user_id : String) (first : ℕ) (attempts : List Attempt)
    → InOrder first attempts
    → let_through user_id new_login_attempt_tracker attempts * 900000000000 + 5 * first
      ≤ 5 * last_time first attempts + 5 * 900000000000
let_through_bounded user_id first attempts o = omega (
  arith,
  let_through_bound user_id first attempts new_login_attempt_tracker 0 first o
      (inl (refl, omega arith, omega arith)),
)
