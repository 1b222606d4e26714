-- ===== src/Http/RateLimiter/Window.antt =====
-- The limiter admits a hit exactly when fewer than `limit` hits of its key passed in the window.
use leafwiki.Base.{
  ℕ, ◌≤◌, ◌≡◌, refl, ◌∙◌, String, Bool, ◌&&◌, List, [], ◌∷◌, ◌++◌, Option, none, some, ltb,
  if◌then◌else◌, str_eq, eq_iff, length, arith, append-nil,
}
use leafwiki.Http.RateLimiter.{
  KeyedLimiter, recent, or_nil, or_delete, cleanup, allow, admit, notify_result,
}

module _ (window : ℕ) where
  pub recent_nil : (now : ℕ) → recent window now [] ≡ []
  unfolding recent
  recent_nil now = refl

  pub recent-append :
      (now : ℕ) (xs ys : List ℕ)
      → recent window now (xs ++ ys) ≡ recent window now xs ++ recent window now ys
  unfolding recent
  recent-append now [] ys = refl
  recent-append now (x ∷ xs) ys = ground (arith, recent-append now xs ys)

  -- What was dropped at an earlier time is also out of the window later.
  pub recent-recent :
      (t now : ℕ) (xs : List ℕ)
      → t ≤ now
      → recent window now (recent window t xs) ≡ recent window now xs
  unfolding recent
  recent-recent t now [] h = refl
  recent-recent t now (x ∷ xs) h = ground (arith, recent-recent t now xs h)

  recent-or_delete :
      (now : ℕ) (xs : List ℕ) → recent window now (or_nil (or_delete xs)) ≡ recent window now xs
  recent-or_delete now [] = refl
  recent-or_delete now (x ∷ xs) = refl

-- A call of `Allow` with the two times that it reads.
pub record Hit : Type 0 where
  pub key : String
  pub swept_at : ℕ
  pub now : ℕ

-- A call of the limiter: `Allow`, or `NotifyResult` with its key and whether the request went well.
pub data Call : Type 0 where
  hits : Hit → Call
  notes : String → Bool → Call

-- The times never go back: each call of `Allow` reads the clock after `clock`, and twice.
abbrev pub InOrder : ℕ → List Call → Type 0
InOrder clock [] = Unit
InOrder clock (hits h ∷ cs) = (clock ≤ h.swept_at) × (h.swept_at ≤ h.now) × InOrder h.now cs
InOrder clock (notes k ok ∷ cs) = InOrder clock cs

abbrev pub apply : KeyedLimiter → Call → KeyedLimiter
apply rl (hits h) = (allow h.key h.swept_at h.now rl).0
apply rl (notes k ok) = notify_result k ok rl

unfoldable pub run : KeyedLimiter → List Call → KeyedLimiter
run rl [] = rl
run rl (c ∷ cs) = run (apply rl c) cs

-- What a call of `Allow` adds to the hits of `key`.
abbrev pub added : String → KeyedLimiter → Hit → List ℕ
added key rl h = if str_eq h.key key && (allow h.key h.swept_at h.now rl).1 then h.now ∷ [] else []

-- The hits of `key` that count after a call, from those that counted before it: a success of the
-- key makes the limiter forget them where it resets on success.
abbrev pub counted : String → KeyedLimiter → Call → List ℕ → List ℕ
counted key rl (hits h) log = log ++ added key rl h
counted key rl (notes k ok) log = if str_eq k key && ok && rl.reset_on_success then [] else log

-- The times at which hits of `key` were admitted since its last reset, the earlier ones first,
-- where `log` are those before the calls.
unfoldable pub admitted : String → KeyedLimiter → List Call → List ℕ → List ℕ
admitted key rl [] log = log
admitted key rl (c ∷ cs) log = admitted key (apply rl c) cs (counted key rl c log)

-- The clock of the last call.
abbrev pub last_time : ℕ → List Call → ℕ
last_time clock [] = clock
last_time clock (hits h ∷ cs) = last_time h.now cs
last_time clock (notes k ok ∷ cs) = last_time clock cs

swept-recent :
    (rl : KeyedLimiter) (t1 now : ℕ) (key : String)
    → t1 ≤ now
    → recent rl.window now (or_nil ((cleanup t1 rl).hits key))
      ≡ recent rl.window now (or_nil (rl.hits key))
unfolding cleanup
swept-recent rl t1 now key le = go (rl.hits key)
  where
    go :
        (o : Option (List ℕ))
        → recent rl.window now
            (or_nil (elim o [ none ↦ none | some es ↦ or_delete (recent rl.window t1 es) ]))
          ≡ recent rl.window now (or_nil o)
    go none = refl
    go (some es) =
        recent-or_delete rl.window now (recent rl.window t1 es)
        ∙ recent-recent rl.window t1 now es le

cleanup-window : (t1 : ℕ) (rl : KeyedLimiter) → (cleanup t1 rl).window ≡ rl.window
unfolding cleanup
cleanup-window t1 rl = refl

cleanup-limit : (t1 : ℕ) (rl : KeyedLimiter) → (cleanup t1 rl).limit ≡ rl.limit
unfolding cleanup
cleanup-limit t1 rl = refl

module _ (k : String) (now : ℕ) (rl : KeyedLimiter) where
  admit-window : (admit k now rl).0.window ≡ rl.window
  unfolding admit
  admit-window = ground arith

  admit-limit : (admit k now rl).0.limit ≡ rl.limit
  unfolding admit
  admit-limit = ground arith

  admit_answer :
      (admit k now rl).1 ≡ ltb (length (recent rl.window now (or_nil (rl.hits k)))) rl.limit
  unfolding admit
  admit_answer = ground arith

  -- What a call adds to the hits of `key`.
  admit-recent :
      (key : String)
      → recent rl.window now (or_nil ((admit k now rl).0.hits key))
        ≡ recent rl.window now (or_nil (rl.hits key))
          ++ recent rl.window now (if str_eq k key && (admit k now rl).1 then now ∷ [] else [])
  unfolding admit
  admit-recent key = ground (
    arith,
    eq_iff k key,
    recent_nil rl.window now,
    append-nil (recent rl.window now (or_nil (rl.hits key))),
    recent-recent rl.window now now (or_nil (rl.hits key)),
    recent-append rl.window now (recent rl.window now (or_nil (rl.hits key))) (now ∷ []),
  )

pub allow-window :
    (rl : KeyedLimiter) (h : Hit) → (allow h.key h.swept_at h.now rl).0.window ≡ rl.window
unfolding allow
allow-window rl h = admit-window h.key h.now (cleanup h.swept_at rl) ∙ cleanup-window h.swept_at rl

pub allow-limit :
    (rl : KeyedLimiter) (h : Hit) → (allow h.key h.swept_at h.now rl).0.limit ≡ rl.limit
unfolding allow
allow-limit rl h = admit-limit h.key h.now (cleanup h.swept_at rl) ∙ cleanup-limit h.swept_at rl

pub allow-recent :
    (rl : KeyedLimiter) (h : Hit) (key : String)
    → h.swept_at ≤ h.now
    → recent rl.window h.now (or_nil ((allow h.key h.swept_at h.now rl).0.hits key))
      ≡ recent rl.window h.now (or_nil (rl.hits key)) ++ recent rl.window h.now (added key rl h)
unfolding allow
allow-recent rl h key le = cc (
  admit-recent h.key h.now (cleanup h.swept_at rl) key,
  cleanup-window h.swept_at rl,
  swept-recent rl h.swept_at h.now key le,
)

-- The answer of `Allow` counts the hits in the window.
pub allow_answer :
    (rl : KeyedLimiter) (h : Hit)
    → h.swept_at ≤ h.now
    → (allow h.key h.swept_at h.now rl).1
      ≡ ltb (length (recent rl.window h.now (or_nil (rl.hits h.key)))) rl.limit
unfolding allow
allow_answer rl h le = cc (
  admit_answer h.key h.now (cleanup h.swept_at rl),
  cleanup-window h.swept_at rl,
  cleanup-limit h.swept_at rl,
  swept-recent rl h.swept_at h.now h.key le,
)

notify-window :
    (k : String) (ok : Bool) (rl : KeyedLimiter) → (notify_result k ok rl).window ≡ rl.window
unfolding notify_result
notify-window k ok rl = ground arith

notify-limit :
    (k : String) (ok : Bool) (rl : KeyedLimiter) → (notify_result k ok rl).limit ≡ rl.limit
unfolding notify_result
notify-limit k ok rl = ground arith

pub apply-window : (rl : KeyedLimiter) (c : Call) → (apply rl c).window ≡ rl.window
apply-window rl (hits h) = allow-window rl h
apply-window rl (notes k ok) = notify-window k ok rl

pub apply-limit : (rl : KeyedLimiter) (c : Call) → (apply rl c).limit ≡ rl.limit
apply-limit rl (hits h) = allow-limit rl h
apply-limit rl (notes k ok) = notify-limit k ok rl

pub run-window : (rl : KeyedLimiter) (cs : List Call) → (run rl cs).window ≡ rl.window
unfolding run
run-window rl [] = refl
run-window rl (c ∷ cs) = run-window (apply rl c) cs ∙ apply-window rl c

pub run-limit : (rl : KeyedLimiter) (cs : List Call) → (run rl cs).limit ≡ rl.limit
unfolding run
run-limit rl [] = refl
run-limit rl (c ∷ cs) = run-limit (apply rl c) cs ∙ apply-limit rl c

module _ (key : String) (w : ℕ) where
  -- The limiter and the log show the same hits of the key within the window.
  abbrev pub Tracks : KeyedLimiter → ℕ → List ℕ → Type 0
  Tracks rl now log = recent w now (or_nil (rl.hits key)) ≡ recent w now log

  pub allow-Tracks :
      (rl : KeyedLimiter) (h : Hit) (clock : ℕ) (log : List ℕ)
      → rl.window ≡ w
      → clock ≤ h.swept_at
      → h.swept_at ≤ h.now
      → Tracks rl clock log
      → Tracks (allow h.key h.swept_at h.now rl).0 h.now (log ++ added key rl h)
  allow-Tracks rl h clock log e le le' t = cc (
    e,
    allow-recent rl h key le',
    recent-append w h.now log (added key rl h),
    recent-recent w clock h.now log (omega arith),
    recent-recent w clock h.now (or_nil (rl.hits key)) (omega arith),
  )

  pub notify-Tracks :
      (rl : KeyedLimiter) (k : String) (ok : Bool) (clock : ℕ) (log : List ℕ)
      → Tracks rl clock log
      → Tracks (notify_result k ok rl) clock (counted key rl (notes k ok) log)
  unfolding notify_result
  notify-Tracks rl k ok clock log t = ground (arith, t, eq_iff k key)

  pub run-Tracks :
      (rl : KeyedLimiter) (cs : List Call) (clock : ℕ) (log : List ℕ)
      → rl.window ≡ w
      → InOrder clock cs
      → Tracks rl clock log
      → Tracks (run rl cs) (last_time clock cs) (admitted key rl cs log)
  unfolding run admitted
  run-Tracks rl [] clock log e o t = t
  run-Tracks rl (hits h ∷ cs) clock log e (a, b, o) t =
      run-Tracks (apply rl (hits h)) cs h.now (log ++ added key rl h) (allow-window rl h ∙ e) o
        (allow-Tracks rl h clock log e a b t)
  run-Tracks rl (notes k ok ∷ cs) clock log e o t =
      run-Tracks (apply rl (notes k ok)) cs clock (counted key rl (notes k ok) log)
        (notify-window k ok rl ∙ e) o (notify-Tracks rl k ok clock log t)
