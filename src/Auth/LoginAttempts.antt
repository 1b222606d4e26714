-- ===== src/Auth/LoginAttempts.antt =====
-- login_attempt_tracker.go: an account is locked for a time after a number of failures. Times are
-- nanoseconds, and 0 is the zero time, which no clock shows. The map of entries is a function.
pub mod Bound
use leafwiki.Base.{
  ℕ, zero, suc, ◌+◌, String, Bool, true, false, Option, none, some, ltb, leb, ◌==◌, if◌then◌else◌,
  str_eq,
}

abbrev pub login_max_failures : ℕ
login_max_failures = 5

-- 15 minutes
abbrev pub login_lock_duration : ℕ
login_lock_duration = 900000000000

pub record LoginAttemptEntry : Type 0 where
  pub failures : ℕ
  pub locked_until : ℕ

abbrev pub Tracker : Type 0
Tracker = String → Option LoginAttemptEntry

abbrev pub new_login_attempt_tracker : Tracker
new_login_attempt_tracker user_id = none

abbrev pub put : String → Option LoginAttemptEntry → Tracker → Tracker
put user_id e t k = if str_eq user_id k then e else t k

-- the entry of an account, a new one if it has none
abbrev pub entry : Tracker → String → LoginAttemptEntry
entry t user_id = elim (t user_id) [ some e ↦ e | none ↦ record { failures = 0; locked_until = 0 } ]

-- One more attempt on an entry that is not locked: a lock that has run out starts a fresh count.
unfoldable pub count_attempt : ℕ → LoginAttemptEntry → LoginAttemptEntry
count_attempt now e =
    let failures = suc (if e.locked_until == 0 then e.failures else 0) in
    if leb login_max_failures failures
    then record { failures = 0; locked_until = now + login_lock_duration }
    else record { failures = failures; locked_until = 0 }

-- `recordAttempt`; `now` is the clock
unfoldable pub record_attempt : String → ℕ → Tracker → Tracker × Bool
record_attempt user_id now t =
    let e = entry t user_id in
    if ltb now e.locked_until
    then (put user_id (some e) t, false)
    else (put user_id (some (count_attempt now e)) t, true)

-- `reset`
unfoldable pub reset : String → Tracker → Tracker
reset user_id = put user_id none
