-- ===== src/Client/Identity.antt =====
-- The key that a process loads by client/src-tauri/src/identity.rs: in later loads and after a
-- restart.
use vtnet.Base.{
  ℕ, ◌≡◌, refl, false, Option, none, some, List, Result, ok, err, arith, Bool-cases, inl, inr,
}
use vtnet.External.{Base64, Ed25519, Keyring}
use vtnet.Client.{
  Process, IdentityError, load_seed, store_seed, locked_load, load_or_create_signing_key,
}

module _ (b : Base64) (k : Keyring) (c : Ed25519) where
  -- The process has a seed in its cache, and the key is made of it.
  pub record IsCached (process : Process k) (key : c.SigningKey) : Type 0 where
    pub seed : List ℕ
    pub cached : process.cached_seed ≡ some seed
    pub unpoisoned : process.is_poisoned ≡ false
    pub key_eq : key ≡ c.signing_key seed

  store_seed-IsCached :
      (process process' : Process k) (r : Result (List ℕ × k.State) IdentityError)
      {key : c.SigningKey}
      → process.is_poisoned ≡ false
      → store_seed b k c process r ≡ (process', ok key)
      → IsCached process' key
  unfolding store_seed
  store_seed-IsCached process process' (ok (seed, ring)) free e = record {
    seed = seed;
    cached = cc;
    unpoisoned = ground arith;
    key_eq = cc;
  }
  store_seed-IsCached process process' (err error) free e = cc

  locked_load-IsCached :
      (process process' : Process k) (fresh : List ℕ) (o : Option (List ℕ)) {key : c.SigningKey}
      → process.is_poisoned ≡ false
      → process.cached_seed ≡ o
      → locked_load b k c process fresh o ≡ (process', ok key)
      → IsCached process' key
  unfolding locked_load
  locked_load-IsCached process process' fresh (some seed) free has e = record {
    seed = seed;
    cached = ground arith;
    unpoisoned = ground arith;
    key_eq = cc;
  }
  locked_load-IsCached process process' fresh none free has e =
      store_seed-IsCached process process' (load_seed b k process.keyring fresh) free e

  pub load-IsCached :
      (process process' : Process k) (fresh : List ℕ) {key : c.SigningKey}
      → load_or_create_signing_key b k c process fresh ≡ (process', ok key)
      → IsCached process' key
  unfolding load_or_create_signing_key
  load-IsCached process process' fresh e = elim (Bool-cases process.is_poisoned) [
    | inl poisoned ↦ absurd (ground arith)
    | inr free ↦
        locked_load-IsCached process process' fresh process.cached_seed free refl (ground arith)
  ]

  pub load_of_IsCached :
      (process : Process k) (fresh : List ℕ) (key : c.SigningKey)
      → IsCached process key
      → load_or_create_signing_key b k c process fresh ≡ (process, ok key)
  unfolding load_or_create_signing_key locked_load
  load_of_IsCached process fresh key h = ground arith

  -- A key that was loaded once is the key of a later load of the process, if only the keyring has
  -- changed in between, whatever it holds and whatever the random source gives; the load changes
  -- nothing.
  pub load_stable :
      (process process' : Process k) (fresh fresh' : List ℕ) (ring : k.State) {key : c.SigningKey}
      → load_or_create_signing_key b k c process fresh ≡ (process', ok key)
      → let later = record process' { keyring = ring } in
        load_or_create_signing_key b k c later fresh' ≡ (later, ok key)
  unfolding load_or_create_signing_key
  load_stable process process' fresh fresh' ring {key} e =
      let h = load-IsCached process process' fresh e in
      load_of_IsCached (record process' { keyring = ring }) fresh' key
        (record { seed = h.seed; cached = h.cached; unpoisoned = h.unpoisoned; key_eq = h.key_eq })

  -- A new seed was stored, and is the one that the process uses.
  record IsCreated (process process' : Process k) (fresh : List ℕ) (key : c.SigningKey)
      : Type 0 where
    stored : k.set_password process.keyring (b.encode fresh) ≡ ok process'.keyring
    unpoisoned : process'.is_poisoned ≡ false
    key_eq : key ≡ c.signing_key fresh
