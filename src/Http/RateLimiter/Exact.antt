-- ===== src/Http/RateLimiter/Exact.antt =====
-- What the limiter guarantees over any run of calls, of one key or of many.
use leafwiki.Base.{
  ℕ, ◌≤◌, ◌≡◌, refl, ◌∙◌, String, Bool, List, [], ◌∷◌, ◌++◌, ltb, eq_iff, length, length-append,
  length-keep-le, arith,
}
use leafwiki.Http.RateLimiter.{KeyedLimiter, new_keyed_limiter, recent, or_nil, allow}
use leafwiki.Http.RateLimiter.Window.{
  Hit, Call, hits, notes, apply, counted, InOrder, run, admitted, last_time, added, Tracks,
  recent_nil, recent-append, recent-recent, allow-window, allow-limit, apply-window, apply-limit,
  allow_answer, run-window, run-limit, allow-Tracks, notify-Tracks, run-Tracks,
}

length-recent-le : (w now : ℕ) (xs : List ℕ) → length (recent w now xs) ≤ length xs
unfolding recent
length-recent-le w now xs = length-keep-le _ xs

module _ (limit window : ℕ) (reset : Bool) where
  abbrev start : KeyedLimiter
  start = new_keyed_limiter limit window reset

  start-window : start.window ≡ window
  unfolding new_keyed_limiter
  start-window = refl

  start-limit : start.limit ≡ limit
  unfolding new_keyed_limiter
  start-limit = refl

  start-Tracks : (key : String) → Tracks key window start 0 []
  unfolding new_keyed_limiter
  start-Tracks key = refl

  -- After any calls on a new limiter, of `Allow` in the order of the clock and of `NotifyResult`, for
  -- any keys, a call of `Allow` answers true exactly when fewer than `limit` hits of its key were admitted within
  -- the window before it and, where the limiter resets on success, after the last `NotifyResult`
  -- that told a success of the key.
  pub allow_exact :
      (hs : List Call) (h : Hit)
      → InOrder 0 hs
      → last_time 0 hs ≤ h.swept_at
      → h.swept_at ≤ h.now
      → (allow h.key h.swept_at h.now (run start hs)).1
        ≡ ltb (length (recent window h.now (admitted h.key start hs []))) limit
  allow_exact hs h o le le' =
      let tracks = run-Tracks h.key window start hs 0 [] start-window o (start-Tracks h.key) in
      let w = last_time 0 hs in
      cc (
        allow_answer (run start hs) h le',
        tracks,
        run-window start hs,
        run-limit start hs,
        start-window,
        start-limit,
        recent-recent window w h.now (admitted h.key start hs []) (omega arith),
        recent-recent window w h.now (or_nil ((run start hs).hits h.key)) (omega arith),
      )

module _ (key : String) (w limit : ℕ) where
  step_bounded :
      (rl : KeyedLimiter) (h : Hit) (clock : ℕ) (log : List ℕ)
      → rl.window ≡ w
      → rl.limit ≡ limit
      → clock ≤ h.swept_at
      → h.swept_at ≤ h.now
      → Tracks key w rl clock log
      → length (recent w clock log) ≤ limit
      → length (recent w h.now (log ++ added key rl h)) ≤ limit
  step_bounded rl h clock log e l le le' t b =
      let fresh = recent-recent w clock h.now log (omega arith) in
      ground (
        arith,
        eq_iff h.key key,
        allow_answer rl h le',
        recent-append w h.now log (added key rl h),
        length-append (recent w h.now log) (recent w h.now (added key rl h)),
        length-recent-le w h.now (added key rl h),
        fresh,
        recent-recent w clock h.now (or_nil (rl.hits key)) (omega arith),
        length-recent-le w h.now (recent w clock log),
      )

  forgotten_bounded :
      (rl : KeyedLimiter) (k : String) (ok : Bool) (clock : ℕ) (log : List ℕ)
      → length (recent w clock log) ≤ limit
      → length (recent w clock (counted key rl (notes k ok) log)) ≤ limit
  forgotten_bounded rl k ok clock log b = ground (arith, b, recent_nil w clock)

  run_bounded :
      (rl : KeyedLimiter) (hs : List Call) (clock : ℕ) (log : List ℕ)
      → rl.window ≡ w
      → rl.limit ≡ limit
      → InOrder clock hs
      → Tracks key w rl clock log
      → length (recent w clock log) ≤ limit
      → length (recent w (last_time clock hs) (admitted key rl hs log)) ≤ limit
  unfolding admitted
  run_bounded rl [] clock log e l o t b = b
  run_bounded rl (hits h ∷ hs) clock log e l (p, q, o) t b =
      run_bounded (apply rl (hits h)) hs h.now (log ++ added key rl h) (allow-window rl h ∙ e)
        (allow-limit rl h ∙ l) o (allow-Tracks key w rl h clock log e p q t)
        (step_bounded rl h clock log e l p q t b)
  run_bounded rl (notes k ok ∷ hs) clock log e l o t b =
      run_bounded (apply rl (notes k ok)) hs clock (counted key rl (notes k ok) log)
        (apply-window rl (notes k ok) ∙ e) (apply-limit rl (notes k ok) ∙ l) o
        (notify-Tracks key w rl k ok clock log t) (forgotten_bounded rl k ok clock log b)

-- After any calls on a new limiter, of `Allow` in the order of the clock and of `NotifyResult`, for
-- any keys, at most `limit` of the hits of a key that were admitted lie within the window, where those before the
-- key's last success do not count for a limiter that resets on success.
pub admitted_bounded :
    (limit window : ℕ) (reset : Bool) (key : String) (hs : List Call)
    → InOrder 0 hs
    → length
        (recent window (last_time 0 hs) (admitted key (new_keyed_limiter limit window reset) hs []))
      ≤ limit
admitted_bounded limit window reset key hs o =
    run_bounded key window limit (start limit window reset) hs 0 []
      (start-window limit window reset) (start-limit limit window reset) o
      (start-Tracks limit window reset key) (omega (arith, length-recent-le window 0 []))
