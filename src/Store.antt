-- ===== src/Store.antt =====
-- internal/store: the replicated map (raft.go, the memory map of store.go behaves as one with no key
-- that never fails) with the encryption of its values (crypto.go), the rotation of the key, and
-- internal/controller/key_rotation.go. Consensus (hashicorp/raft) and AES-GCM are libraries: whether
-- a command is committed is `commits`, and sealing and opening are parameters.
pub mod Reading
pub mod Rewriting
pub mod Rotation
pub mod Backup
mod Tests
use nimbuscore.Prelude.{
  ℕ, suc, String, Bool, true, false, List, [], ◌∷◌, Option, none, some, Assoc, lookup, insert,
  remove, eqb, has_prefix, if◌then◌else◌,
}

pub data Error : Type 0 where
  not_found not_committed undecryptable bad_key_size : Error

pub data Result (A : Type 0) : Type 0 where
  ok : A → Result A
  err : Error → Result A

abbrev pub encryption_key_size : ℕ
encryption_key_size = 32

-- The commands that the log carries.
pub data Command (Bytes : Type 0) : Type 0 where
  put_command : String → Bytes → Command Bytes
  delete_command : String → Command Bytes

-- fsm.Apply
unfoldable pub apply_command : {Bytes : Type 0} → Command Bytes → Assoc Bytes → Assoc Bytes
apply_command (put_command k v) data_map = insert k v data_map
apply_command (delete_command k) data_map = remove k data_map

-- An empty key is none. `commits n` says that the n-th command is committed; a node that is not the
-- leader commits none.
pub record Store (Bytes : Type 0) : Type 0 where
  pub entries : Assoc Bytes
  pub key : Option Bytes
  pub previous : Option Bytes
  pub commands : ℕ
  pub commits : ℕ → Bool

-- Sealing takes a key, a fresh nonce and a text; opening takes a key. `nonce n` is the one that is
-- drawn for the n-th command.
module _ {Bytes : Type 0} (size : Bytes → ℕ) (nonce : ℕ → Bytes)
    (seal : Bytes → Bytes → Bytes → Bytes) (unseal : Bytes → Bytes → Option Bytes) where
  -- RaftStore.apply
  unfoldable pub apply : Command Bytes → Store Bytes → Result (Unit {0}) × Store Bytes
  unfolding apply_command
  apply command s =
      let t = record s { commands = suc s.commands } in
      if s.commits s.commands
      then (ok tt, record t { entries = apply_command command s.entries })
      else (err not_committed, t)

  abbrev pub sealed : Option Bytes → Bytes → Bytes → Bytes
  sealed none n v = v
  sealed (some k) n v = seal k n v

  abbrev pub or_previous : Option Bytes → Bytes → Option Bytes → Option Bytes
  or_previous previous stored (some v) = some v
  or_previous none stored none = none
  or_previous (some k) stored none = unseal k stored

  -- RaftStore.decrypt
  abbrev pub opened : Option Bytes → Option Bytes → Bytes → Option Bytes
  opened none previous stored = some stored
  opened (some k) previous stored = or_previous previous stored (unseal k stored)

  abbrev pub or_undecryptable : Option Bytes → Result Bytes
  or_undecryptable none = err undecryptable
  or_undecryptable (some v) = ok v

  abbrev pub read : Store Bytes → Option Bytes → Result Bytes
  read s none = err not_found
  read s (some b) = or_undecryptable (opened s.key s.previous b)

  -- RaftStore.Get
  unfoldable pub get : String → Store Bytes → Result Bytes
  get k s = read s (lookup k s.entries)

  -- RaftStore.Put
  unfoldable pub put : String → Bytes → Store Bytes → Result (Unit {0}) × Store Bytes
  unfolding apply
  put k v s = apply (put_command k (sealed s.key (nonce s.commands) v)) s

  -- RaftStore.Delete
  unfoldable pub delete : String → Store Bytes → Result (Unit {0}) × Store Bytes
  unfolding apply
  delete k s = apply (delete_command k) s

  abbrev pub listed_with : String → Option Bytes → Result (Assoc Bytes) → Result (Assoc Bytes)
  listed_with k none rest = err undecryptable
  listed_with k (some v) (ok m) = ok ((k, v) ∷ m)
  listed_with k (some v) (err e) = err e

  -- RaftStore.List: the values under a prefix, or an error when one of them is not decrypted.
  unfoldable pub list_from : Store Bytes → String → Assoc Bytes → Result (Assoc Bytes)
  list_from s prefix [] = ok []
  list_from s prefix ((k, b) ∷ m) =
      let rest = list_from s prefix m in
      if has_prefix k prefix then listed_with k (opened s.key s.previous b) rest else rest

  unfoldable pub list : String → Store Bytes → Result (Assoc Bytes)
  unfolding list_from
  list prefix s = list_from s prefix s.entries

  -- RaftStore.RotateEncryptionKey
  unfoldable pub rotate_encryption_key : Bytes → Store Bytes → Result (Unit {0}) × Store Bytes
  rotate_encryption_key new_key s =
      if eqb (size new_key) encryption_key_size
      then (ok tt, record s { previous = s.key; key = some new_key })
      else (err bad_key_size, s)

  -- The loop of ReencryptAll, with the number of values that it has done.
  abbrev pub stop_on_error :
      ℕ
      → Result (Unit {0}) × Store Bytes
      → (Store Bytes → (Result (Unit {0}) × ℕ) × Store Bytes)
      → (Result (Unit {0}) × ℕ) × Store Bytes
  stop_on_error count (ok _, t) rest = rest t
  stop_on_error count (err e, t) rest = ((err e, count), t)

  unfoldable pub put_all : ℕ → Assoc Bytes → Store Bytes → (Result (Unit {0}) × ℕ) × Store Bytes
  unfolding put
  put_all count [] s = ((ok tt, count), s)
  put_all count ((k, v) ∷ m) s = stop_on_error count (put k v s) (put_all (suc count) m)

  abbrev pub forget_previous :
      (Result (Unit {0}) × ℕ) × Store Bytes → (Result (Unit {0}) × ℕ) × Store Bytes
  forget_previous ((ok _, count), t) = ((ok tt, count), record t { previous = none })
  forget_previous ((err e, count), t) = ((err e, count), t)

  abbrev pub reencrypted :
      Result (Assoc Bytes) → Store Bytes → (Result (Unit {0}) × ℕ) × Store Bytes
  reencrypted (err e) s = ((err e, 0), s)
  reencrypted (ok m) s = forget_previous (put_all 0 m s)

  -- RaftStore.ReencryptAll
  unfoldable pub reencrypt_all : Store Bytes → (Result (Unit {0}) × ℕ) × Store Bytes
  unfolding put_all list
  reencrypt_all s = reencrypted (list "" s) s

  abbrev pub then_reencrypt : Result (Unit {0}) × Store Bytes → Store Bytes
  then_reencrypt (ok _, t) = (reencrypt_all t).1
  then_reencrypt (err e, t) = t

  -- KeyRotationReconciler.rotate, with the key that it draws. Its errors are only logged.
  unfoldable pub rotate : Bytes → Store Bytes → Store Bytes
  unfolding rotate_encryption_key reencrypt_all
  rotate new_key s = then_reencrypt (rotate_encryption_key new_key s)
