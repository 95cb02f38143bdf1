-- ===== src/Cluster/Reads.antt =====
-- A read counts as an operation and changes nothing else; a write changes one map, or nothing.
use nimbuscore.Prelude.{ℕ, suc, ◌≡◌, String, false, lookup, insert, remove, arith}
use nimbuscore.Cluster.{
  Cluster, Registry, ok, get, put, delete, list, listed, list_prefix, key, found,
}

abbrev pub counted : Cluster → Cluster
counted s = record s { operations = suc s.operations }

-- No operation on the store fails.
pub record IsHealthy (s : Cluster) : Type 0 where
  pub up : (n : ℕ) → s.fails n ≡ false

module _ {T : Type 0} (r : Registry T) (namespace : String) (s : Cluster) where
  pub get-state : (name : String) → (get r namespace name s).1 ≡ counted s
  unfolding get
  get-state name = ground arith

  pub list-state : (list r namespace s).1 ≡ counted s
  unfolding list
  list-state = ground arith

pub counted-IsHealthy : (s : Cluster) → IsHealthy s → IsHealthy (counted s)
counted-IsHealthy s h = record { up = h.up }

-- The operations of a store that does not fail.
module _ {T : Type 0} (r : Registry T) (namespace : String) (s : Cluster) (h : IsHealthy s) where
  pub get-up :
      (name : String)
      → get r namespace name s
        ≡ (found (lookup (key r.kind namespace name) (r.objects (counted s))), counted s)
  unfolding get
  get-up name = ground (arith, h.up s.operations)

  pub list-up :
      list r namespace s
      ≡ (ok (listed (list_prefix r.kind namespace) (r.objects (counted s))), counted s)
  unfolding list
  list-up = ground (arith, h.up s.operations)

  pub put-up :
      (name : String) (x : T)
      → put r namespace name x s ≡ (
        ok tt,
        r.replace (insert (key r.kind namespace name) x (r.objects (counted s))) (counted s),
      )
  unfolding put
  put-up name x = ground (arith, h.up s.operations)

  pub delete-up :
      (name : String)
      → delete r namespace name s ≡ (
        ok tt,
        r.replace (remove (key r.kind namespace name) (r.objects (counted s))) (counted s),
      )
  unfolding delete
  delete-up name = ground (arith, h.up s.operations)
