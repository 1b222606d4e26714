-- ===== src/Examples/Limits.antt =====
-- A limiter of two hits in ten nanoseconds.
use leafwiki.Base.{ℕ, ◌≤◌, ◌≡◌, refl, String, true, List, [], ◌∷◌, ltb, length, arith}
use leafwiki.Http.RateLimiter.{
  KeyedLimiter, new_keyed_limiter, recent, allow, admit, cleanup, serve, notify_result,
}
use leafwiki.Http.RateLimiter.Window.{Hit, Call, hits, notes, run, admitted}
use leafwiki.Http.RateLimiter.Exact.{allow_exact, admitted_bounded}

abbrev limiter : KeyedLimiter
limiter = new_keyed_limiter 2 10 true

abbrev hit : String → ℕ → Hit
hit key t = record { key = key; swept_at = t; now = t }

abbrev calls : List Call
calls =
    hits (hit "a" 1)
    ∷ hits (hit "a" 2)
    ∷ notes "a" true
    ∷ hits (hit "a" 3)
    ∷ hits (hit "b" 3)
    ∷ notes "b" true
    ∷ hits (hit "a" 5)
    ∷ hits (hit "a" 8)
    ∷ hits (hit "a" 14)
    ∷ []

admitted_tests :
    (admitted "a" limiter calls [] ≡ 3 ∷ 5 ∷ 14 ∷ []) × ((serve "c" 20 20 429 limiter).1 ≡ 429)
unfolding admitted allow admit cleanup new_keyed_limiter recent serve notify_result
admitted_tests = (refl, refl)

allow_exact_example :
    (allow "a" 14 14 (run limiter calls)).1
    ≡ ltb (length (recent 10 14 (admitted "a" limiter calls []))) 2
allow_exact_example =
    allow_exact 2 10 true calls (hit "a" 14) (omega arith) (omega arith) (omega arith)

admitted_bounded_example : length (recent 10 14 (admitted "a" limiter calls [])) ≤ 2
admitted_bounded_example = admitted_bounded 2 10 true "a" calls (omega arith)
