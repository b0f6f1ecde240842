-- ===== src/Gateway/RateLimit/Window.antt =====
-- How many hits of a key the limiter keeps, and how many keys.
use hive_os.Base.{
  ℕ, ◌+◌, ◌≤◌, ◌<◌, String, true, false, some, List, [], ◌∷◌, ◌++◌, ◌≡◌, inl, inr, Bool-cases,
  Option-cases, length, length-append, arith, All, str_eq, str_eq_iff, leb, ltb, ◌||◌,
  if◌then◌else◌, is_some,
}
use hive_os.Dict.{Dict, get, put, remove, length-put}
use hive_os.Gateway.RateLimit.{
  SlidingWindowLimiter, new_limiter, is_stale, prune, evict, make_room, live, oldest_from,
  last_expiry, admit, check,
}

length-prune_le : (window now : ℕ) (d : Dict (List ℕ)) → length (prune window now d) ≤ length d
unfolding prune
length-prune_le window now [] = omega arith
length-prune_le window now ((k, hits) ∷ d) = ground (arith, length-prune_le window now d)

length-remove_le : {V : Type 0} (k : String) (d : Dict V) → length (remove k d) ≤ length d
unfolding remove
length-remove_le k [] = omega arith
length-remove_le k ((j, v) ∷ d) = ground (arith, length-remove_le k d)

-- A key that is there leaves.
length-remove_lt :
    {V : Type 0} (k : String) (d : Dict V)
    → is_some (get k d) ≡ true
    → length (remove k d) < length d
unfolding remove get
length-remove_lt k [] e = cc
length-remove_lt k ((j, v) ∷ d) e = ground (arith, length-remove_le k d, length-remove_lt k d)

get_here : {V : Type 0} (k : String) (v : V) (d : Dict V) → is_some (get k ((k, v) ∷ d)) ≡ true
unfolding get
get_here k v d = ground (arith, str_eq_iff k k)

get_there :
    {V : Type 0} (j k : String) (v : V) (d : Dict V)
    → is_some (get j d) ≡ true
    → is_some (get j ((k, v) ∷ d)) ≡ true
unfolding get
get_there j k v d h = ground arith

-- The key that goes is one of the keys.
has-oldest_from :
    (window now : ℕ) (best : String) (t : ℕ) (d e : Dict (List ℕ))
    → is_some (get best e) ≡ true
    → ((k : String) → is_some (get k d) ≡ true → is_some (get k e) ≡ true)
    → is_some (get (oldest_from window now best t d) e) ≡ true
unfolding oldest_from get
has-oldest_from window now best t [] e b more = b
has-oldest_from window now best t ((k, hits) ∷ d) e b more =
    elim (Bool-cases (ltb (last_expiry window now hits) t)) [
      | inl older ↦ rw older (
          has-oldest_from window now k (last_expiry window now hits) d e
            (more k (get_here k hits d)) (λ j h. more j (get_there j k hits d h)))
      | inr newer ↦
          rw newer
            (has-oldest_from window now best t d e b (λ j h. more j (get_there j k hits d h)))
    ]

length-evict_lt :
    (window now : ℕ) (d : Dict (List ℕ)) → 0 < length d → length (evict window now d) < length d
unfolding evict
length-evict_lt window now [] l = absurd (omega arith)
length-evict_lt window now ((k, hits) ∷ d) l =
    length-remove_lt (oldest_from window now k (last_expiry window now hits) d) ((k, hits) ∷ d) (
      has-oldest_from window now k (last_expiry window now hits) d ((k, hits) ∷ d)
        (get_here k hits d) (λ j h. get_there j k hits d h))

length-make_room_lt :
    (now : ℕ) (l : SlidingWindowLimiter)
    → 1 ≤ l.max_keys
    → length l.hits ≤ l.max_keys
    → length (make_room now l) < l.max_keys
unfolding make_room
length-make_room_lt now l one full = ground (
  arith,
  length-prune_le l.window now l.hits,
  length-evict_lt l.window now l.hits,
  length-evict_lt l.window now (prune l.window now l.hits),
)

length-live_le : (window now : ℕ) (hits : List ℕ) → length (live window now hits) ≤ length hits
unfolding live
length-live_le window now [] = omega arith
length-live_le window now (t ∷ ts) = ground (arith, length-live_le window now ts)

module _ (n : ℕ) where
  abbrev Short : Dict (List ℕ) → Type 0
  Short d = All (λ (e : String × List ℕ). length e.1 ≤ n) d

  Short-put :
      (k : String) (hits : List ℕ) (d : Dict (List ℕ))
      → length hits ≤ n
      → Short d
      → Short (put k hits d)
  unfolding put
  Short-put k hits [] h ok = (h, tt)
  Short-put k hits ((j, old) ∷ d) h ok = elim (Bool-cases (str_eq j k)) [
    | inl same ↦ rw same (h, ok.1)
    | inr other ↦ rw other (ok.0, Short-put k hits d h ok.1)
  ]

  Short-remove : (k : String) (d : Dict (List ℕ)) → Short d → Short (remove k d)
  unfolding remove
  Short-remove k [] ok = tt
  Short-remove k ((j, old) ∷ d) ok = elim (Bool-cases (str_eq j k)) [
    | inl same ↦ rw same (Short-remove k d ok.1)
    | inr other ↦ rw other (ok.0, Short-remove k d ok.1)
  ]

  Short-prune : (window now : ℕ) (d : Dict (List ℕ)) → Short d → Short (prune window now d)
  unfolding prune
  Short-prune window now [] ok = tt
  Short-prune window now ((j, old) ∷ d) ok = elim (Bool-cases (is_stale window now old)) [
    | inl stale ↦ rw stale (Short-prune window now d ok.1)
    | inr fresh ↦ rw fresh (ok.0, Short-prune window now d ok.1)
  ]

  Short-evict : (window now : ℕ) (d : Dict (List ℕ)) → Short d → Short (evict window now d)
  unfolding evict
  Short-evict window now [] ok = tt
  Short-evict window now ((j, old) ∷ d) ok =
      Short-remove (oldest_from window now j (last_expiry window now old) d) ((j, old) ∷ d) ok

  Short-get :
      (k : String) (d : Dict (List ℕ)) (hits : List ℕ)
      → Short d
      → get k d ≡ some hits
      → length hits ≤ n
  unfolding get
  Short-get k [] hits ok e = cc
  Short-get k ((j, old) ∷ d) hits ok e = elim (Bool-cases (str_eq j k)) [
    | inl same ↦ ground arith
    | inr other ↦ Short-get k d hits ok.1 (rw (other, get) at e)
  ]

-- A deque holds at most `limit` hits, and there are at most `max_keys` deques.
pub record IsBounded (l : SlidingWindowLimiter) : Type 0 where
  pub short : Short l.limit l.hits
  pub few : length l.hits ≤ l.max_keys
  pub some_key : 1 ≤ l.max_keys

Short-make_room :
    (now : ℕ) (l : SlidingWindowLimiter) → Short l.limit l.hits → Short l.limit (make_room now l)
unfolding make_room
Short-make_room now l ok = elim (Bool-cases (leb l.max_keys (length l.hits))) [
  | inl full ↦
      rw full (evicted (prune l.window now l.hits) (Short-prune l.limit l.window now l.hits ok))
  | inr room ↦ rw (room, room) ok
]
  where
    evicted :
        (d : Dict (List ℕ))
        → Short l.limit d
        → Short l.limit (if leb l.max_keys (length d) then evict l.window now d else d)
    evicted d h = elim (Bool-cases (leb l.max_keys (length d))) [
      | inl full ↦ rw full (Short-evict l.limit l.window now d h)
      | inr room ↦ rw room h
    ]

admit-IsBounded :
    (now : ℕ) (key : String) (hits : List ℕ) (d : Dict (List ℕ)) (l : SlidingWindowLimiter)
    → Short l.limit d
    → length hits ≤ l.limit
    → (if is_some (get key d) then length d else length d + 1) ≤ l.max_keys
    → 1 ≤ l.max_keys
    → IsBounded (admit now key hits d l).0
unfolding admit
admit-IsBounded now key hits d l short fits few some_key =
    elim (Bool-cases (leb l.limit (length (live l.window now hits)))) [
      | inl full ↦ rw full (record {
        short =
            Short-put l.limit key (live l.window now hits) d
              (omega (arith, length-live_le l.window now hits)) short;
        few = omega (arith, length-put key (live l.window now hits) d);
        some_key = some_key;
      })
      | inr room ↦ rw room (record {
        short = Short-put l.limit key (live l.window now hits ++ now ∷ []) d (one_more room) short;
        few = omega (arith, length-put key (live l.window now hits ++ now ∷ []) d);
        some_key = some_key;
      })
    ]
  where
    one_more :
        leb l.limit (length (live l.window now hits)) ≡ false
        → length (live l.window now hits ++ now ∷ []) ≤ l.limit
    one_more room =
        let below : length (live l.window now hits) < l.limit = ground arith in
        omega (arith, length-append (live l.window now hits) (now ∷ []))

check-IsBounded :
    (now : ℕ) (key : String) (l : SlidingWindowLimiter)
    → IsBounded l
    → IsBounded (check now key l).0
unfolding check
check-IsBounded now key l h = elim (Option-cases (get key l.hits)) [
  | inl fresh ↦
      rw (fresh, check)
        (admit-IsBounded now key [] (make_room now l) l (Short-make_room now l h.short)
          (omega arith) (room_for (length-make_room_lt now l h.some_key h.few)) h.some_key)
  | inr (hits, found) ↦
      rw (found, check)
        (admit-IsBounded now key hits l.hits l h.short
          (Short-get l.limit key l.hits hits h.short found) (rw found h.few) h.some_key)
]
  where
    room_for :
        length (make_room now l) < l.max_keys
        → (if is_some (get key (make_room now l))
            then length (make_room now l)
            else length (make_room now l) + 1)
          ≤ l.max_keys
    room_for free = elim (Bool-cases (is_some (get key (make_room now l)))) [
      | inl old ↦ rw old (omega arith)
      | inr new ↦ rw new (omega arith)
    ]

-- The limiter after a run of requests, each with its time and its key.
unfoldable pub after : List (ℕ × String) → SlidingWindowLimiter → SlidingWindowLimiter
after [] l = l
after ((now, key) ∷ requests) l = after requests (check now key l).0

after-IsBounded :
    (requests : List (ℕ × String)) (l : SlidingWindowLimiter)
    → IsBounded l
    → IsBounded (after requests l)
unfolding after
after-IsBounded [] l h = h
after-IsBounded ((now, key) ∷ requests) l h =
    after-IsBounded requests (check now key l).0 (check-IsBounded now key l h)

-- A limiter whose construction succeeds never holds more hits of a key than its limit, nor more keys
-- than its bound, whatever requests it has answered.
pub limiter-IsBounded :
    (limit window max_keys : ℕ) (l : SlidingWindowLimiter) (requests : List (ℕ × String))
    → new_limiter limit window max_keys ≡ some l
    → IsBounded (after requests l)
unfolding new_limiter
limiter-IsBounded limit window max_keys l requests e = after-IsBounded requests l (start e)
  where
    start : new_limiter limit window max_keys ≡ some l → IsBounded l
    start made = elim (Bool-cases (ltb limit 1 || (ltb window 1 || ltb max_keys 1))) [
      | inl bad ↦ absurd (ground arith)
      | inr good ↦
          let fresh : SlidingWindowLimiter = record {
            limit = limit;
            window = window;
            max_keys = max_keys;
            hits = [];
          } in
          let made' : some fresh ≡ some l = rw good at made in
          let same : fresh ≡ l = cc in
          rw (← same) (record { short = tt; few = omega arith; some_key = ground arith })
    ]
