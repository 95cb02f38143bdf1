-- ===== src/Store/Rotation.antt =====
-- A new key, and writing all values again under it.
use nimbuscore.Prelude.{
  ℕ, ◌≡◌, ◌≢◌, refl, sym, ap, ◌∙◌, subst, String, true, Option, none, some, Assoc, lookup, length,
  HasKeysOnce, arith, ◌⊎◌, inl, inr,
}
use nimbuscore.Store.{
  Store, Result, ok, err, undecryptable, encryption_key_size, sealed, opened, or_undecryptable,
  read, get, list, rotate_encryption_key, put_all, forget_previous, reencrypted, reencrypt_all,
}
use nimbuscore.Store.Reading.{opened-sealed}
use nimbuscore.Store.Rewriting.{
  AfterAll, list_from-Opens, put_all-AfterAll, Opens-HasKeysOnce, Opens-lookup,
}

module _ {Bytes : Type 0} (size : Bytes → ℕ) (nonce : ℕ → Bytes)
    (seal : Bytes → Bytes → Bytes → Bytes) (unseal : Bytes → Bytes → Option Bytes) where
  some-none : {a : Bytes} → some a ≢ none
  some-none h = cc

  some_injective : {a b : Bytes} → some a ≡ some b → a ≡ b
  some_injective h = cc

  module _ (u : (k n v : Bytes) → unseal k (seal k n v) ≡ some v) (s t : Store Bytes)
      (j : String) where
    same_read :
        (ps : Assoc Bytes)
        → t.key ≡ s.key
        → ((lookup j s.entries ≡ none) × (lookup j ps ≡ none))
          ⊎ ((b : Bytes) × (v : Bytes) × (lookup j s.entries ≡ some b)
              × (lookup j ps ≡ some v)
              × (opened size nonce seal unseal s.key s.previous b ≡ some v))
        → AfterAll size nonce seal unseal ps s t j
        → get size nonce seal unseal j (record t { previous = none })
          ≡ get size nonce seal unseal j s
    unfolding get
    same_read ps q (inl (m, p)) (inl (x, y)) = rw (m, y ∙ m) refl
    same_read ps q (inl (m, p)) (inr (w, n, x, y)) = absurd (some-none (sym x ∙ p))
    same_read ps q (inr (b, v, m, p, o)) (inl (x, y)) = absurd (some-none (sym p ∙ x))
    same_read ps q (inr (b, v, m, p, o)) (inr (w, n, x, y)) =
        ap (read size nonce seal unseal (record t { previous = none })) y
        ∙ ap
            (λ k.
              or_undecryptable size nonce seal unseal
                (opened size nonce seal unseal k none (sealed size nonce seal unseal s.key n w)))
            q
        ∙ ap (or_undecryptable size nonce seal unseal)
            (opened-sealed size nonce seal unseal u s.key none n w)
        ∙ ap ok (some_injective (sym x ∙ p))
        ∙ sym (ap (or_undecryptable size nonce seal unseal) o)
        ∙ sym (ap (read size nonce seal unseal s) m)

  reencrypt_all-up :
      (s t : Store Bytes) (ps : Assoc Bytes)
      → list size nonce seal unseal "" s ≡ ok ps
      → put_all size nonce seal unseal 0 ps s ≡ ((ok tt, length ps), t)
      → reencrypt_all size nonce seal unseal s ≡ ((ok tt, length ps), record t { previous = none })
  unfolding reencrypt_all
  reencrypt_all-up s t ps l e =
      ap (λ r. reencrypted size nonce seal unseal r s) l
      ∙ ap (forget_previous size nonce seal unseal) e

  abbrev pub Forgets : Store Bytes → Assoc Bytes → (Result (Unit {0}) × ℕ) × Store Bytes → Type 0
  Forgets s ps r =
      (r.0 ≡ (ok tt, length ps))
      × (r.1.key ≡ s.key)
      × (r.1.previous ≡ none)
      × ((j : String) → get size nonce seal unseal j r.1 ≡ get size nonce seal unseal j s)

  -- Where opening undoes sealing under the same key: when every value is decrypted and every command
  -- committed, encrypting all values again succeeds, counts each, and forgets the previous key;
  -- every key then reads as before, though only the current key is left to open with.
  pub reencrypt_all-get :
      ((k n v : Bytes) → unseal k (seal k n v) ≡ some v)
      → (s : Store Bytes) (ps : Assoc Bytes) → HasKeysOnce s.entries
      → ((n : ℕ) → s.commits n ≡ true)
      → list size nonce seal unseal "" s ≡ ok ps
      → ((reencrypt_all size nonce seal unseal s).0 ≡ (ok tt, length ps))
        × ((reencrypt_all size nonce seal unseal s).1.key ≡ s.key)
        × ((reencrypt_all size nonce seal unseal s).1.previous ≡ none)
        × ((j : String)
            → get size nonce seal unseal j (reencrypt_all size nonce seal unseal s).1
              ≡ get size nonce seal unseal j s)
  unfolding list
  reencrypt_all-get u s ps h c l =
      let o = list_from-Opens size nonce seal unseal s s.entries ps l in
      let (t, e, q, f) =
        put_all-AfterAll size nonce seal unseal 0 ps s c
          (Opens-HasKeysOnce size nonce seal unseal o h) in
      let w = reencrypt_all-up s t ps l (e ∙ ground arith) in
      subst (Forgets s ps) (sym w)
        (refl, q, refl, λ j. same_read u s t j ps q (Opens-lookup size nonce seal unseal o j) (f j))

  -- Where sealing under another key is not opened: a value that is written under one key is read no
  -- more after two rotations, to keys other than it, with no encryption of the values between them.
  pub rotated_twice-unreadable :
      ((k l n v : Bytes) → k ≢ l → unseal l (seal k n v) ≡ none)
      → (j : String) (k n v a b : Bytes) (s : Store Bytes) → k ≢ a
      → k ≢ b
      → size a ≡ encryption_key_size
      → size b ≡ encryption_key_size
      → lookup j s.entries ≡ some (seal k n v)
      → get size nonce seal unseal j
          (rotate_encryption_key size nonce seal unseal b
            (rotate_encryption_key size nonce seal unseal a s).1).1
        ≡ err undecryptable
  unfolding rotate_encryption_key get
  rotated_twice-unreadable r j k n v a b s p q x y l = ground (arith, r k a n v p, r k b n v q)
