-- ===== src/Store/Backup.antt =====
-- internal/apiserver/backup_service.go: all values of a store, written to another.
pub mod Restored
use nimbuscore.Prelude.{ℕ, String, ℤ, pos, wrap, half32, List, [], ◌∷◌, Option, Assoc, length}
use nimbuscore.Store.{Store, Result, ok, err, list, put_all}

module _ {Bytes : Type 0} (size : Bytes → ℕ) (nonce : ℕ → Bytes)
    (seal : Bytes → Bytes → Bytes → Bytes) (unseal : Bytes → Bytes → Option Bytes) where
  -- CreateBackup: every key with its value, opened
  unfoldable pub create_backup : Store Bytes → Result (Assoc Bytes)
  create_backup s = list size nonce seal unseal "" s

  abbrev pub counted_as : ℕ → (Result (Unit {0}) × ℕ) × Store Bytes → Result ℤ × Store Bytes
  counted_as n ((ok _, count), t) = (ok (wrap half32 (pos n)), t)
  counted_as n ((err e, count), t) = (err e, t)

  -- RestoreBackup: the loop that puts each entry, which ends at the first error, is that of
  -- ReencryptAll; the answer counts all entries
  unfoldable pub restore_backup : Assoc Bytes → Store Bytes → Result ℤ × Store Bytes
  restore_backup entries s =
      counted_as (length entries) (put_all size nonce seal unseal 0 entries s)
