-- ===== src/Gateway/RateLimit.antt =====
-- The sliding-window limiter: src/hive/gateway/rate_limit.py. Times and the window are milliseconds
-- of the limiter's clock; `check` runs under its lock, so it is one step.
pub mod Window
use hive_os.Base.{
  ℕ, zero, suc, ◌+◌, ◌-◌, ◌/◌, String, Bool, true, false, Option, none, some, List, [], ◌∷◌, ◌++◌,
  max, leb, ltb, ◌||◌, if◌then◌else◌, length,
}
use hive_os.Dict.{Dict, get, put, remove}

pub record RateLimitDecision : Type 0 where
  pub allowed : Bool
  pub retry_after : ℕ

pub record SlidingWindowLimiter : Type 0 where
  pub limit : ℕ
  pub window : ℕ
  pub max_keys : ℕ
  pub hits : Dict (List ℕ)

-- `__init__`: none where it raises.
unfoldable pub new_limiter : ℕ → ℕ → ℕ → Option SlidingWindowLimiter
new_limiter limit window max_keys =
    if ltb limit 1 || (ltb window 1 || ltb max_keys 1)
    then none
    else some (record { limit = limit; window = window; max_keys = max_keys; hits = [] })

-- `t <= cutoff` for the cutoff `now - window`.
abbrev pub is_past : ℕ → ℕ → ℕ → Bool
is_past window now t = leb (t + window) now

-- hits[-1]
unfoldable pub newest : List ℕ → Option ℕ
newest [] = none
newest (t ∷ ts) = let rest = newest ts in elim rest [ none ↦ some t | some u ↦ some u ]

-- A deque without hits, or with the last one past.
unfoldable pub is_stale : ℕ → ℕ → List ℕ → Bool
unfolding newest
is_stale window now hits = elim (newest hits) [ none ↦ true | some t ↦ is_past window now t ]

-- `_prune`
unfoldable pub prune : ℕ → ℕ → Dict (List ℕ) → Dict (List ℕ)
unfolding is_stale
prune window now [] = []
prune window now ((k, hits) ∷ d) =
    let rest = prune window now d in if is_stale window now hits then rest else (k, hits) ∷ rest

-- What `min` compares, moved by the window: the newest hit, or the cutoff without hits.
unfoldable pub last_expiry : ℕ → ℕ → List ℕ → ℕ
unfolding newest
last_expiry window now hits = elim (newest hits) [ none ↦ now | some t ↦ t + window ]

-- The key whose newest hit, plus the window, is least; the first one of equals.
unfoldable pub oldest_from : ℕ → ℕ → String → ℕ → Dict (List ℕ) → String
unfolding last_expiry
oldest_from window now best t [] = best
oldest_from window now best t ((k, hits) ∷ d) =
    let u : ℕ = last_expiry window now hits in
    if ltb u t then oldest_from window now k u d else oldest_from window now best t d

unfoldable pub evict : ℕ → ℕ → Dict (List ℕ) → Dict (List ℕ)
unfolding oldest_from last_expiry remove
evict window now [] = []
evict window now ((k, hits) ∷ d) =
    remove (oldest_from window now k (last_expiry window now hits) d) ((k, hits) ∷ d)

-- Room for a new key.
unfoldable pub make_room : ℕ → SlidingWindowLimiter → Dict (List ℕ)
unfolding prune evict
make_room now l =
    let pruned = if leb l.max_keys (length l.hits) then prune l.window now l.hits else l.hits in
    if leb l.max_keys (length pruned) then evict l.window now pruned else pruned

-- while hits and hits[0] <= cutoff: hits.popleft()
unfoldable pub live : ℕ → ℕ → List ℕ → List ℕ
live window now [] = []
live window now (t ∷ ts) =
    let rest = live window now ts in if is_past window now t then rest else t ∷ ts

-- max(1, ceil(hits[0] + window - now)), in seconds
unfoldable pub retry_after : ℕ → ℕ → List ℕ → ℕ
retry_after window now [] = 1
retry_after window now (t ∷ ts) = max 1 ((t + window - now + 999) / 1000)

-- The rest of `check`, on the deque of the key in `d`.
unfoldable pub admit :
    ℕ
    → String
    → List ℕ
    → Dict (List ℕ)
    → SlidingWindowLimiter
    → SlidingWindowLimiter × RateLimitDecision
unfolding live retry_after put
admit now key hits d l =
    let kept = live l.window now hits in
    if leb l.limit (length kept)
    then (
      record l { hits = put key kept d },
      record { allowed = false; retry_after = retry_after l.window now kept },
    )
    else (
      record l { hits = put key (kept ++ now ∷ []) d },
      record { allowed = true; retry_after = 0 },
    )

unfoldable pub check : ℕ → String → SlidingWindowLimiter → SlidingWindowLimiter × RateLimitDecision
unfolding make_room admit get
check now key l = elim (get key l.hits) [
  | some hits ↦ admit now key hits l.hits l
  | none ↦ admit now key [] (make_room now l) l
]

-- GatewayRateLimiters
pub record GatewayRateLimiters : Type 0 where
  pub http_ip : SlidingWindowLimiter
  pub http_token : SlidingWindowLimiter
  pub ws_ip : SlidingWindowLimiter
  pub ws_token : SlidingWindowLimiter
