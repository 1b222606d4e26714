-- ===== src/Http/RateLimiter.antt =====
-- security/rate_limiter.go: how often a key may pass within a sliding window. The map of hits is a
-- function, `none` for a key that it lacks. Times are nanoseconds; `t.After(now - window)` is
-- `now < t + window`.
pub mod Window
pub mod Exact
use leafwiki.Base.{
  ℕ, ◌+◌, String, Bool, true, false, not, ◌||◌, ◌&&◌, List, [], ◌∷◌, ◌++◌, Option, none, some, leb,
  ltb, if◌then◌else◌, str_eq, length, keep,
}

abbrev pub Hits : Type 0
Hits = String → Option (List ℕ)

pub record KeyedLimiter : Type 0 where
  pub hits : Hits
  pub limit : ℕ
  pub window : ℕ
  pub reset_on_success : Bool

unfoldable pub new_keyed_limiter : ℕ → ℕ → Bool → KeyedLimiter
new_keyed_limiter limit window reset_on_success = record {
  hits = λ k. none;
  limit = limit;
  window = window;
  reset_on_success = reset_on_success;
}

abbrev pub update : String → Option (List ℕ) → Hits → Hits
update key v m k = if str_eq key k then v else m k

-- the hits after `cutoff`, where `cutoff` is `window` before `now`
unfoldable pub recent : ℕ → ℕ → List ℕ → List ℕ
unfolding keep
recent window now = keep (λ t. ltb now (t + window))

abbrev pub or_nil : Option (List ℕ) → List ℕ
or_nil none = []
or_nil (some ts) = ts

-- An entry with no event left is deleted.
abbrev pub or_delete : List ℕ → Option (List ℕ)
or_delete [] = none
or_delete (t ∷ ts) = some (t ∷ ts)

unfoldable pub cleanup : ℕ → KeyedLimiter → KeyedLimiter
unfolding recent
cleanup now rl = record rl {
  hits =
      λ k. elim (rl.hits k) [ none ↦ none | some events ↦ or_delete (recent rl.window now events) ];
}

-- The part of `Allow` that follows `cleanup`, under the lock.
unfoldable pub admit : String → ℕ → KeyedLimiter → KeyedLimiter × Bool
admit key now rl =
    let events = recent rl.window now (or_nil (rl.hits key)) in
    if leb rl.limit (length events)
    then (record rl { hits = update key (some events) rl.hits }, false)
    else (record rl { hits = update key (some (events ++ now ∷ [])) rl.hits }, true)

-- `Allow`: `t1` is the clock that `cleanup` reads, `now` the one that `Allow` reads after it.
unfoldable pub allow : String → ℕ → ℕ → KeyedLimiter → KeyedLimiter × Bool
allow key t1 now rl = admit key now (cleanup t1 rl)

unfoldable pub notify_result : String → Bool → KeyedLimiter → KeyedLimiter
notify_result key success rl =
    if not rl.reset_on_success || not success
    then rl
    else record rl { hits = update key none rl.hits }

-- What `NewRateLimiter` does with a request: the status that the handlers give is `status`, and
-- the answer is the one that the client sees.
unfoldable pub serve : String → ℕ → ℕ → ℕ → KeyedLimiter → KeyedLimiter × ℕ
unfolding allow notify_result
serve key t1 now status rl =
    let (rl', ok) = allow key t1 now rl in
    if ok then (notify_result key (leb 200 status && ltb status 300) rl', status) else (rl', 429)
