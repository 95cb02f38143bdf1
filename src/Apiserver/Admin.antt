-- ===== src/Apiserver/Admin.antt =====
-- internal/apiserver/admin_service.go: a control-plane node joins the raft cluster.
use nimbuscore.Prelude.{String, ◌||◌, Option, none, some, has_prefix, ◌==◌, if◌then◌else◌}
use nimbuscore.Cluster.{Result, ok, err}
use nimbuscore.Apiserver.Codes.{
  invalid_argument, failed_precondition, permission_refused, not_authenticated,
}
use nimbuscore.Apiserver.Auth.{SpiffeId}

-- `add_voter` is `RaftJoiner.AddVoter`, on the state of the raft library.
module _ {Raft : Type 0} (add_voter : String → String → Raft → Result (Unit {0}) × Raft) where
  abbrev pub joined : Result (Unit {0}) → Result (Unit {0})
  joined (ok u) = ok tt
  joined (err e) = err failed_precondition

  abbrev pub joining : SpiffeId → String → String → Raft → Result (Unit {0}) × Raft
  joining id node_id raft_addr r =
      if has_prefix id.path "/control-plane/"
      then (if node_id == "" || raft_addr == ""
          then (err invalid_argument, r)
          else (let (a, t) = add_voter node_id raft_addr r in (joined a, t)))
      else (err permission_refused, r)

  -- JoinRaft, for the identity of the caller.
  unfoldable pub join_raft : Option SpiffeId → String → String → Raft → Result (Unit {0}) × Raft
  join_raft none node_id raft_addr r = (err not_authenticated, r)
  join_raft (some id) node_id raft_addr r = joining id node_id raft_addr r
