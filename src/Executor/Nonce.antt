-- ===== src/Executor/Nonce.antt =====
-- internal/executor/nonce.go: the nonces in use with the expiry of their envelopes, in memory and
-- in one file. A reading of the clock is an argument; `Reserve` runs under the store's mutex.
use safeops_agent.Prelude.{
  ℕ, ◌≤◌, String, ◌≡◌, ◌≢◌, [], ◌∷◌, Option, none, some, ◌==◌, ==→eq, ==-refl, ltb, Error, Result,
  ok, err, Dict, lookup, insert, erase, lookup-insert, lookup-erase, if◌then◌else◌, arith,
}
use safeops_agent.Disk
use safeops_agent.Disk.{Disk, missing_file}

pub record NonceStore : Type 0 where
  pub path : String
  pub used : Dict ℕ
  pub disk : Disk (Dict ℕ)

-- `NewNonceStore`, once its directory is there.
unfoldable pub new_nonce_store : String → Disk (Dict ℕ) → Result NonceStore
new_nonce_store path d = elim (lookup path d.files) [
  | none ↦ ok (record { path = path; used = []; disk = d })
  | some content ↦ elim content [
    | none ↦ err "nonce file cannot be decoded"
    | some m ↦ ok (record { path = path; used = m; disk = d })
  ]
]

-- The loop of `Reserve` that deletes what has expired.
unfoldable pub purge : ℕ → Dict ℕ → Dict ℕ
purge now [] = []
purge now ((n, expiry) ∷ m) =
    let rest = purge now m in if ltb expiry now then rest else (n, expiry) ∷ rest

-- `Reserve`; `none` is a nil error.
unfoldable pub reserve : String → ℕ → ℕ → NonceStore → Option Error × NonceStore
reserve nonce expires_at now s =
    let live = purge now s.used in
    let used' = insert nonce expires_at live in
    let (e, disk') = Disk.save s.path used' s.disk in
    if nonce == "" then (some "nonce is required", s) else elim (lookup nonce live) [
      | some _ ↦ (some "envelope replay detected", record s { used = live })
      | none ↦ elim e [
        | none ↦ (none, record s { used = used'; disk = disk' })
        | some x ↦ (some x, record s { used = erase nonce used'; disk = disk' })
      ]
    ]

pub lookup-purge_live :
    (n : String) (x now : ℕ) (m : Dict ℕ)
    → lookup n m ≡ some x
    → now ≤ x
    → lookup n (purge now m) ≡ some x
unfolding purge lookup
lookup-purge_live n x now [] h le = cc
lookup-purge_live n x now ((k, y) ∷ m) h le = ground (arith, lookup-purge_live n x now m)

-- A nonce whose envelope has not expired cannot be reserved again.
pub reserve-used :
    (n : String) (x y now : ℕ) (s : NonceStore)
    → lookup n s.used ≡ some x
    → now ≤ x
    → (reserve n y now s).0 ≢ none
unfolding reserve
reserve-used n x y now s h le = ground (arith, lookup-purge_live n x now s.used h le)

-- A reservation that reports no error is recorded.
pub reserve-recorded :
    (n : String) (x now : ℕ) (s : NonceStore)
    → (reserve n x now s).0 ≡ none
    → lookup n (reserve n x now s).1.used ≡ some x
unfolding reserve
reserve-recorded n x now s h = ground (arith, lookup-insert n n x (purge now s.used), ==-refl n)

-- A nonce in use stays in use through every later call of `Reserve`, until it expires.
pub reserve-keeps :
    (n k : String) (x y now : ℕ) (s : NonceStore)
    → lookup n s.used ≡ some x
    → now ≤ x
    → lookup n (reserve k y now s).1.used ≡ some x
unfolding reserve
reserve-keeps n k x y now s h le = ground (
  arith,
  lookup-purge_live n x now s.used h le,
  lookup-insert k n y (purge now s.used),
  lookup-erase k n (insert k y (purge now s.used)),
  ==→eq k n,
)
