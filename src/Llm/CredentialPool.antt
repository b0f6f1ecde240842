-- ===== src/Llm/CredentialPool.antt =====
-- The pool of API keys with cooldowns: src/hive/llm/credential_pool.py. A credential is named by its
-- key, which is unique in a pool; times are milliseconds of the pool's clock.
pub mod Rotation
use hive_os.Base.{
  ℕ, zero, suc, ◌+◌, ◌-◌, ◌%◌, String, Bool, Option, none, some, List, [], ◌∷◌, ◌++◌, map, max, leb,
  ltb, ◌||◌, ◌==◌, if◌then◌else◌, str_eq, length, get_or,
}
use hive_os.Table.{select, count_where, update_where}

-- PooledCredential; `label` is the number in "key0", "key1", …
pub record PooledCredential : Type 0 where
  pub key : String
  pub label : ℕ
  pub failures : ℕ
  pub cooldown_until : ℕ

pub record CredentialPool : Type 0 where
  pub creds : List PooledCredential
  pub cooldown : ℕ
  pub cursor : ℕ

abbrev pub has_key : String → PooledCredential → Bool
has_key key c = str_eq c.key key

add_keys : List String → List PooledCredential → List PooledCredential
add_keys [] creds = creds
add_keys (k ∷ keys) creds = add_keys keys (
    if str_eq k "" || ltb 0 (count_where (has_key k) creds)
    then creds
    else creds ++ (record { key = k; label = length creds; failures = 0; cooldown_until = 0 }) ∷ [])

-- `__init__`
unfoldable pub new_pool : List String → ℕ → CredentialPool
unfolding add_keys
new_pool keys cooldown = record { creds = add_keys keys []; cooldown = cooldown; cursor = 0 }

abbrev pub is_ready : ℕ → PooledCredential → Bool
is_ready now c = leb c.cooldown_until now

unfoldable pub available : ℕ → CredentialPool → List PooledCredential
available now p = select (is_ready now) p.creds

unfoldable pub available_count : ℕ → CredentialPool → ℕ
unfolding available
available_count now p = length (available now p)

-- self._creds[i]
unfoldable pub get_elem? : List PooledCredential → ℕ → Option PooledCredential
get_elem? [] i = none
get_elem? (c ∷ cs) zero = some c
get_elem? (c ∷ cs) (suc i) = get_elem? cs i

-- The loop of `acquire` from `i` on: the credential and the new cursor.
unfoldable pub scan : ℕ → ℕ → ℕ → CredentialPool → Option (PooledCredential × ℕ)
unfolding get_elem?
scan now i zero p = none
scan now i (suc left) p =
    let rest = scan now (i + 1) left p in
    elim (get_elem? p.creds ((p.cursor + i) % length p.creds)) [
      | none ↦ none
      | some c ↦ if is_ready now c then some (c, (p.cursor + i + 1) % length p.creds) else rest
    ]

unfoldable pub acquire : ℕ → CredentialPool → CredentialPool × Option PooledCredential
unfolding scan
acquire now p = elim (scan now 0 (length p.creds) p) [
  | none ↦ (p, none)
  | some (c, cursor) ↦ (record p { cursor = cursor }, some c)
]

change : String → (PooledCredential → PooledCredential) → CredentialPool → CredentialPool
change key f p = record p { creds = update_where (has_key key) f p.creds }

unfoldable pub report_success : String → CredentialPool → CredentialPool
unfolding change
report_success key p = change key (λ c. record c { failures = 0; cooldown_until = 0 }) p

unfoldable pub report_failure : ℕ → String → Option ℕ → CredentialPool → CredentialPool
unfolding change
report_failure now key cooldown p =
    change key
      (λ c. record c {
        failures = c.failures + 1;
        cooldown_until = now + get_or p.cooldown cooldown;
      })
      p

unfoldable pub cooldown_all : ℕ → ℕ → CredentialPool → CredentialPool
cooldown_all now span p = record p {
  creds =
      map {B = PooledCredential}
        (λ c. record c { cooldown_until = max c.cooldown_until (now + span) }) p.creds;
}

-- `cooldown`
unfoldable pub cool : ℕ → String → ℕ → CredentialPool → CredentialPool
unfolding change
cool now key span p =
    change key (λ c. record c { cooldown_until = max c.cooldown_until (now + span) }) p

unfoldable pub reset_cooldowns : CredentialPool → CredentialPool
reset_cooldowns p = record p {
  creds = map {B = PooledCredential} (λ c. record c { cooldown_until = 0; failures = 0 }) p.creds;
}

pub record CredentialStatus : Type 0 where
  pub label : ℕ
  pub failures : ℕ
  pub cooling : Bool
  pub cooldown_remaining : ℕ

unfoldable pub status : ℕ → CredentialPool → List CredentialStatus
status now p =
    map
      (λ c. record {
        label = c.label;
        failures = c.failures;
        cooling = ltb now c.cooldown_until;
        cooldown_remaining = c.cooldown_until - now;
      })
      p.creds

unfoldable pub labels : CredentialPool → List ℕ
labels p = map (λ c. c.label) p.creds

sum : List ℕ → ℕ
sum [] = 0
sum (n ∷ ns) = n + sum ns

unfoldable pub total_failures : CredentialPool → ℕ
unfolding sum
total_failures p = sum (map (λ c. c.failures) p.creds)
