-- ===== src/Store/Backup/Restored.antt =====
-- What a restored backup reads as.
use nimbuscore.Prelude.{
  ℕ, ◌≡◌, ◌≢◌, sym, ap, ◌∙◌, inl, inr, ◌⊎◌, String, pos, wrap, half32, Option, some, none, Assoc,
  lookup, length, HasKeysOnce, true,
}
use nimbuscore.Store.{Store, Error, ok, err, get, read, sealed, opened, or_undecryptable, list}
use nimbuscore.Store.Reading.{opened-sealed}
use nimbuscore.Store.Rewriting.{
  AfterAll, Opens-lookup, Opens-HasKeysOnce, list_from-Opens, put_all-AfterAll,
}
use nimbuscore.Store.Backup.{create_backup, counted_as, restore_backup}

module _ {Bytes : Type 0} (size : Bytes → ℕ) (nonce : ℕ → Bytes)
    (seal : Bytes → Bytes → Bytes → Bytes) (unseal : Bytes → Bytes → Option Bytes) where
  err_ok : {e : Error} {v : Bytes} → err e ≢ ok v
  err_ok h = cc

  ok_injective : {a b : Bytes} → ok a ≡ ok b → a ≡ b
  ok_injective h = cc

  some-none : {a : Bytes} → some a ≢ none
  some-none h = cc

  some_injective : {a b : Bytes} → some a ≡ some b → a ≡ b
  some_injective h = cc

  restored_read :
      ((k n v : Bytes) → unseal k (seal k n v) ≡ some v)
      → (s t u : Store Bytes) (ps : Assoc Bytes) (j : String) (v : Bytes) → u.key ≡ t.key
      → ((lookup j s.entries ≡ none) × (lookup j ps ≡ none))
        ⊎ ((b : Bytes) × (w : Bytes) × (lookup j s.entries ≡ some b)
            × (lookup j ps ≡ some w)
            × (opened size nonce seal unseal s.key s.previous b ≡ some w))
      → AfterAll size nonce seal unseal ps t u j
      → get size nonce seal unseal j s ≡ ok v
      → get size nonce seal unseal j u ≡ ok v
  unfolding get
  restored_read r s t u ps j v q (inl (m, p)) a g =
      absurd (err_ok (sym (ap (read size nonce seal unseal s) m) ∙ g))
  restored_read r s t u ps j v q (inr (b, w, m, p, o)) (inl (x, y)) g =
      absurd (some-none (sym p ∙ x))
  restored_read r s t u ps j v q (inr (b, w, m, p, o)) (inr (z, n, x, y)) g =
      let same = ok_injective (
        sym (ap (or_undecryptable size nonce seal unseal) o)
        ∙ sym (ap (read size nonce seal unseal s) m)
        ∙ g) in
      ap (read size nonce seal unseal u) y
      ∙ ap
          (λ k.
            or_undecryptable size nonce seal unseal (
              opened size nonce seal unseal u.key u.previous (sealed size nonce seal unseal k n z)))
          (sym q)
      ∙ ap (or_undecryptable size nonce seal unseal)
          (opened-sealed size nonce seal unseal r u.key u.previous n z)
      ∙ ap ok (some_injective (sym x ∙ p) ∙ same)

  -- Where opening undoes sealing under the same key: a backup of a store, restored into any store
  -- that commits every command, counts its entries, and each key that could be read in the first
  -- store reads as the same value in the second, whatever key that one seals with.
  pub restore_backup-get :
      ((k n v : Bytes) → unseal k (seal k n v) ≡ some v)
      → (s t : Store Bytes) (ps : Assoc Bytes) (j : String) (v : Bytes) → HasKeysOnce s.entries
      → ((n : ℕ) → t.commits n ≡ true)
      → create_backup size nonce seal unseal s ≡ ok ps
      → get size nonce seal unseal j s ≡ ok v
      → ((restore_backup size nonce seal unseal ps t).0 ≡ ok (wrap half32 (pos (length ps))))
        × (get size nonce seal unseal j (restore_backup size nonce seal unseal ps t).1 ≡ ok v)
  unfolding create_backup restore_backup list
  restore_backup-get r s t ps j v h c l g =
      let o = list_from-Opens size nonce seal unseal s s.entries ps l in
      let (u, e, q, f) =
        put_all-AfterAll size nonce seal unseal 0 ps t c
          (Opens-HasKeysOnce size nonce seal unseal o h) in
      let w = ap (counted_as size nonce seal unseal (length ps)) e in
      (
        ap (λ x. x.0) w,
        ap (λ x. get size nonce seal unseal j x.1) w
            ∙ restored_read r s t u ps j v q (Opens-lookup size nonce seal unseal o j) (f j) g,
      )
