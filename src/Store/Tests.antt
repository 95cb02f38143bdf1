-- ===== src/Store/Tests.antt =====
-- A store whose sealed values are boxes with the key on them.
use nimbuscore.Prelude.{
  wrap, half32, pos, ℕ, ◌≡◌, ◌≢◌, refl, ap, ◌∙◌, true, false, Bool, ◌&&◌, &&_iff, eqb, eqb→eq, [],
  ◌∷◌, Option, some, none, lookup, if◌then◌else◌, strip, has_prefix, arith, Bool-cases, inl, inr,
}
use nimbuscore.Store.{
  Store, ok, err, undecryptable, encryption_key_size, get, list, list_from, reencrypt_all,
  rotate_encryption_key,
}
use nimbuscore.Store.Backup.{create_backup, restore_backup}
use nimbuscore.Store.Backup.Restored.{restore_backup-get}
use nimbuscore.Store.Rotation.{Forgets, reencrypt_all-get, rotated_twice-unreadable}

data Blob : Type 0 where
  raw : ℕ → Blob
  box : Blob → Blob → Blob

abbrev same : Blob → Blob → Bool
same (raw a) (raw b) = eqb a b
same (box k v) (box l w) = same k l && same v w
same _ _ = false

same_refl : (a : Blob) → same a a ≡ true
same_refl (raw n) = ground arith
same_refl (box k v) = ground (arith, same_refl k, same_refl v)

same_sound : (a b : Blob) → same a b ≡ true → a ≡ b
same_sound (raw a) (raw b) h = ap raw (eqb→eq a b h)
same_sound (raw a) (box l w) h = absurd (ground arith)
same_sound (box k v) (raw b) h = absurd (ground arith)
same_sound (box k v) (box l w) h =
    let p = (&&_iff (same k l) (same v w)).0 h in
    ap (λ x. box x v) (same_sound k l p.0) ∙ ap (box l) (same_sound v w p.1)

abbrev size : Blob → ℕ
size b = encryption_key_size

abbrev nonce : ℕ → Blob
nonce n = raw n

abbrev seal : Blob → Blob → Blob → Blob
seal k n v = box k v

abbrev unseal : Blob → Blob → Option Blob
unseal l (raw n) = none
unseal l (box k v) = if same k l then some v else none

unseal-seal : (k n v : Blob) → unseal k (seal k n v) ≡ some v
unseal-seal k n v = ground (arith, same_refl k)

unseal_other : (k l n v : Blob) → k ≢ l → unseal l (seal k n v) ≡ none
unseal_other k l n v h = elim (Bool-cases (same k l)) [
  | inl e ↦ absurd (h (same_sound k l e))
  | inr e ↦ rw e refl
]

abbrev store : Store Blob
store = record {
  entries = ("/registry/secrets/s", box (raw 1) (raw 7)) ∷ [];
  key = some (raw 1);
  previous = none;
  commands = 0;
  commits = λ n. true;
}

-- The store after its first rotation.
abbrev rotated : Store Blob
rotated = record store { key = some (raw 2); previous = some (raw 1) }

reads_all : list size nonce seal unseal "" rotated ≡ ok (("/registry/secrets/s", raw 7) ∷ [])
unfolding list list_from has_prefix strip
reads_all = refl

reencrypt_all-get_example :
    Forgets size nonce seal unseal rotated
      (("/registry/secrets/s", raw 7) ∷ [])
      (reencrypt_all size nonce seal unseal rotated)
reencrypt_all-get_example =
    reencrypt_all-get size nonce seal unseal unseal-seal rotated
      (("/registry/secrets/s", raw 7) ∷ []) (tt, tt) (λ n. refl) reads_all

abbrev id_of : Blob → ℕ
id_of (raw n) = n
id_of (box k v) = 0

one_not_two : raw 1 ≢ raw 2
one_not_two h = ground (arith, ap id_of h)

one_not_three : raw 1 ≢ raw 3
one_not_three h = ground (arith, ap id_of h)

sealed_s : lookup "/registry/secrets/s" store.entries ≡ some (seal (raw 1) (raw 0) (raw 7))
unfolding lookup
sealed_s = refl

rotated_twice-unreadable_example :
    get size nonce seal unseal "/registry/secrets/s"
      (rotate_encryption_key size nonce seal unseal
        (raw 3)
        (rotate_encryption_key size nonce seal unseal (raw 2) store).1).1
    ≡ err undecryptable
rotated_twice-unreadable_example =
    rotated_twice-unreadable size nonce seal unseal unseal_other "/registry/secrets/s" (raw 1)
      (raw 0) (raw 7) (raw 2) (raw 3) store one_not_two one_not_three refl refl sealed_s

-- A store that seals with another key.
abbrev other : Store Blob
other = record store { entries = []; key = some (raw 9) }

backs_up : create_backup size nonce seal unseal store ≡ ok (("/registry/secrets/s", raw 7) ∷ [])
unfolding create_backup list list_from has_prefix strip
backs_up = refl

reads_s : get size nonce seal unseal "/registry/secrets/s" store ≡ ok (raw 7)
unfolding get lookup
reads_s = refl

restore_backup-get_example :
    ((restore_backup size nonce seal unseal (("/registry/secrets/s", raw 7) ∷ []) other).0
      ≡ ok (wrap half32 (pos 1)))
    × (get size nonce seal unseal "/registry/secrets/s"
          (restore_backup size nonce seal unseal (("/registry/secrets/s", raw 7) ∷ []) other).1
        ≡ ok (raw 7))
restore_backup-get_example =
    restore_backup-get size nonce seal unseal unseal-seal store other
      (("/registry/secrets/s", raw 7) ∷ []) "/registry/secrets/s" (raw 7) (tt, tt) (λ n. refl)
      backs_up reads_s
