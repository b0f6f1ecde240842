-- ===== src/Llm/CredentialPool/Rotation.antt =====
-- What `acquire` hands out.
use hive_os.Base.{
  ℕ, zero, suc, ◌+◌, ◌-◌, ◌%◌, ◌≤◌, ◌<◌, true, false, none, some, List, [], ◌∷◌, ◌≡◌, refl, ap, sym,
  ◌∙◌, inl, inr, Bool-cases, Option-cases, length, arith, leb, ◌==◌,
}
use native.Mathlib.Nat.{mod-lt, mod-eq_of_lt, add-mod_left}
use hive_os.Llm.CredentialPool.{
  PooledCredential, CredentialPool, is_ready, get_elem?, scan, acquire,
}

scan_ready :
    (now i left : ℕ) (p : CredentialPool) (c : PooledCredential) (cursor : ℕ)
    → scan now i left p ≡ some (c, cursor)
    → is_ready now c ≡ true
unfolding scan
scan_ready now i zero p c cursor e = cc
scan_ready now i (suc left) p c cursor e = ground (arith, scan_ready now (i + 1) left p c cursor)

-- The loop stops at an index that names a ready credential, or has passed them all.
scan-none :
    (now i left : ℕ) (p : CredentialPool)
    → ((k : ℕ) → k < length p.creds → (d : PooledCredential) × (get_elem? p.creds k ≡ some d))
    → 0 < length p.creds
    → scan now i left p ≡ none
    → (j : ℕ) (c : PooledCredential) → i ≤ j
    → j < i + left
    → get_elem? p.creds ((p.cursor + j) % length p.creds) ≡ some c
    → is_ready now c ≡ false
unfolding scan
scan-none now i zero p total full e j c lo hi found = absurd (omega arith)
scan-none now i (suc left) p total full e j c lo hi found =
    let (d, here) = total ((p.cursor + i) % length p.creds) (mod-lt (p.cursor + i) full) in
    elim (Bool-cases (is_ready now d)) [
      | inl ready ↦ absurd (ground arith)
      | inr cooling ↦ elim (Bool-cases (i == j)) [
        | inl same ↦
            let where_c : (p.cursor + j) % length p.creds ≡ (p.cursor + i) % length p.creds =
              ground arith in
            let again : some d ≡ some c = sym here ∙ (rw (← where_c) found) in ground arith
        | inr later ↦
            scan-none now (i + 1) left p total full (rw (here, cooling, scan) at e) j c
              (ground arith) (omega arith) found
      ]
    ]

get_elem?-lt :
    (cs : List PooledCredential) (k : ℕ)
    → k < length cs
    → (d : PooledCredential) × (get_elem? cs k ≡ some d)
unfolding get_elem?
get_elem?-lt [] k l = absurd (omega arith)
get_elem?-lt (c ∷ cs) zero l = (c, refl)
get_elem?-lt (c ∷ cs) (suc k) l = get_elem?-lt cs k (omega arith)

-- Every index of a pool is visited from any cursor.
offset : (n cursor k : ℕ) → cursor < n → k < n → (i : ℕ) × (i < n) × ((cursor + i) % n ≡ k)
offset n cursor k lc lk = elim (Bool-cases (leb cursor k)) [
  | inl up ↦ (
    k - cursor,
    ground arith,
    (let le : cursor ≤ k = ground arith in ap (λ m. m % n) (omega arith) ∙ mod-eq_of_lt lk),
  )
  | inr wrap ↦ (
    n - cursor + k,
    ground arith,
    ap (λ m. m % n) (omega arith) ∙ (add-mod_left n k ∙ mod-eq_of_lt lk),
  )
]

get_elem?_lt_length :
    (cs : List PooledCredential) (k : ℕ) (c : PooledCredential)
    → get_elem? cs k ≡ some c
    → k < length cs
unfolding get_elem?
get_elem?_lt_length [] k c e = cc
get_elem?_lt_length (d ∷ cs) zero c e = omega arith
get_elem?_lt_length (d ∷ cs) (suc k) c e = omega (arith, get_elem?_lt_length cs k c e)

-- A credential that is handed out is not in cooldown.
pub acquire_ready :
    (now : ℕ) (p : CredentialPool) (c : PooledCredential)
    → (acquire now p).1 ≡ some c
    → is_ready now c ≡ true
unfolding acquire
acquire_ready now p c e = elim (Option-cases (scan now 0 (length p.creds) p)) [
  | inl nothing ↦ absurd (ground arith)
  | inr ((d, cursor), found) ↦ scan_ready now 0 (length p.creds) p c cursor (ground arith)
]

-- With the cursor inside the pool, nothing is handed out only when every credential is in cooldown.
pub acquire-none_all_cooling :
    (now : ℕ) (p : CredentialPool) (k : ℕ) (c : PooledCredential)
    → p.cursor < length p.creds
    → (acquire now p).1 ≡ none
    → get_elem? p.creds k ≡ some c
    → is_ready now c ≡ false
unfolding acquire
acquire-none_all_cooling now p k c inside e found =
    let (i, below, at) =
      offset (length p.creds) p.cursor k inside (get_elem?_lt_length p.creds k c found) in
    elim (Option-cases (scan now 0 (length p.creds) p)) [
      | inr ((d, cursor), hit) ↦ absurd (ground arith)
      | inl nothing ↦
          scan-none now 0 (length p.creds) p (get_elem?-lt p.creds) (omega arith) nothing i c
            (omega arith) (omega arith) (rw at found)
    ]
