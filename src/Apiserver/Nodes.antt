-- ===== src/Apiserver/Nodes.antt =====
-- internal/apiserver/node_service.go, and internal/controller/node_health.go, which ends the
-- readiness that the heartbeats give.
use nimbuscore.Prelude.{
  String, ℤ, leb_ℤ, Bool, true, false, not, ◌||◌, List, [], ◌∷◌, Option, none, some, ◌==◌,
  if◌then◌else◌,
}
use nimbuscore.Api.{Node, ResourceList}
use nimbuscore.Cluster.{M, pure, raise, attempt, ◌>>=◌, ◌>>◌, nodes, get, put, delete, list}
use nimbuscore.Apiserver.Codes.{answering, invalid_argument, internal, not_there}

-- CreateNode
unfoldable pub create_node : Node → M Node
create_node n =
    if n.metadata.name == ""
    then raise invalid_argument
    else (answering internal (put nodes "" n.metadata.name n) >> pure n)

-- GetNode
unfoldable pub get_node : String → M Node
get_node name = answering not_there (get nodes "" name)

-- ListNodes
unfoldable pub list_nodes : M (List Node)
list_nodes = answering internal (list nodes "")

-- DeleteNode
unfoldable pub delete_node : String → M (Unit {0})
delete_node name = answering internal (delete nodes "" name)

abbrev pub or_kept : Option ResourceList → ResourceList → ResourceList
or_kept none kept = kept
or_kept (some r) kept = r

-- The node after a heartbeat at the time `now`, in seconds. A message that is left out keeps what
-- the node has.
abbrev pub beaten : ℤ → Option ResourceList → Option ResourceList → Node → Node
beaten now capacity allocatable n = record n {
  status = record n.status {
    ready = true;
    last_heartbeat_unix = now;
    capacity = or_kept capacity n.status.capacity;
    allocatable = or_kept allocatable n.status.allocatable;
  };
}

-- Heartbeat
unfoldable pub heartbeat : ℤ → String → Option ResourceList → Option ResourceList → M (Unit {0})
heartbeat now name capacity allocatable = answering not_there (get nodes "" name) >>= λ n.
    answering internal (put nodes "" name (beaten now capacity allocatable n))

abbrev pub not_ready : Node → Node
not_ready n = record n { status = record n.status { ready = false } }

-- The node needs no change: it is not ready already, or its last heartbeat is recent.
abbrev pub is_settled : ℤ → Node → Bool
is_settled cutoff n = not n.status.ready || leb_ℤ cutoff n.status.last_heartbeat_unix

-- The loop of NodeHealthReconciler.checkAll, which goes on after an error.
unfoldable pub check_each : ℤ → List Node → M (Unit {0})
check_each cutoff [] = pure tt
check_each cutoff (n ∷ ns) =
    let rest = check_each cutoff ns in
    if is_settled cutoff n
    then rest
    else (attempt (put nodes "" n.metadata.name (not_ready n)) >> rest)

-- NodeHealthReconciler.checkAll, for the seconds since which a heartbeat is recent. What it logs as an
-- error it returns.
unfoldable pub check_all : ℤ → M (Unit {0})
unfolding check_each
check_all cutoff = list nodes "" >>= check_each cutoff
