-- ===== src/Store/Reading.antt =====
-- What is written is read.
use nimbuscore.Prelude.{
  ℕ, ◌≡◌, refl, String, true, Option, none, some, lookup-insert, lookup-remove, arith, ◌==◌,
  if◌then◌else◌,
}
use nimbuscore.Store.{Store, ok, err, not_found, sealed, opened, get, put, delete}

module _ {Bytes : Type 0} (size : Bytes → ℕ) (nonce : ℕ → Bytes)
    (seal : Bytes → Bytes → Bytes → Bytes) (unseal : Bytes → Bytes → Option Bytes)
    (unseal-seal : (k n v : Bytes) → unseal k (seal k n v) ≡ some v) where
  pub opened-sealed :
      (k previous : Option Bytes) (n v : Bytes)
      → opened size nonce seal unseal k previous (sealed size nonce seal unseal k n v) ≡ some v
  opened-sealed none previous n v = refl
  opened-sealed (some k) previous n v = rw (unseal-seal k n v)

  -- Where opening undoes sealing under the same key, a committed write of a value is read back under
  -- its key, and a committed deletion as a missing key; what stands under other keys reads as before.
  get-put :
      (k j : String) (v : Bytes) (s : Store Bytes)
      → s.commits s.commands ≡ true
      → (get size nonce seal unseal j (put size nonce seal unseal k v s).1
          ≡ (if k == j then ok v else get size nonce seal unseal j s))
        × (get size nonce seal unseal j (delete size nonce seal unseal k s).1
            ≡ (if k == j then err not_found else get size nonce seal unseal j s))
  unfolding get put delete
  get-put k j v s c = ground (
    arith,
    lookup-insert k j (sealed size nonce seal unseal s.key (nonce s.commands) v) s.entries,
    lookup-remove k j s.entries,
    opened-sealed s.key s.previous (nonce s.commands) v,
  )
