-- ===== src/Examples/Logins.antt =====
-- Six attempts on one account within a minute, and one after the lock.
use leafwiki.Base.{ℕ, ◌+◌, ◌*◌, ◌≤◌, ◌≡◌, refl, [], ◌∷◌, List, none, arith}
use leafwiki.Auth.LoginAttempts.{new_login_attempt_tracker, record_attempt, count_attempt, reset}
use leafwiki.Auth.LoginAttempts.Bound.{
  Attempt, InOrder, last_time, let_through, let_through_bounded,
}

abbrev attempt : ℕ → Attempt
attempt now = record { user_id = "ann"; now = now }

abbrev attempts : List Attempt
attempts =
    attempt 1
    ∷ attempt 2
    ∷ attempt 3
    ∷ attempt 4
    ∷ attempt 5
    ∷ attempt 6
    ∷ attempt 900000000005
    ∷ []

logins_tests :
    (let_through "ann" new_login_attempt_tracker attempts ≡ 6)
    × (reset "ann" (record_attempt "ann" 7 new_login_attempt_tracker).0 "ann" ≡ none)
unfolding let_through record_attempt count_attempt reset
logins_tests = (refl, refl)

in_order : InOrder 1 attempts
in_order = (
  omega arith,
  (omega arith, (omega arith, (omega arith, (omega arith, (omega arith, (omega arith, tt)))))),
)

let_through_bounded_example :
    let_through "ann" new_login_attempt_tracker attempts * 900000000000 + 5 * 1
    ≤ 5 * last_time 1 attempts + 5 * 900000000000
let_through_bounded_example = let_through_bounded "ann" 1 attempts in_order
