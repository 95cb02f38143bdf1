-- ===== src/Agent/Loop.antt =====
-- internal/agent/agent.go: the loop that compares the pods assigned to the node with what runs on it.
pub mod Growth
pub mod Assigned
pub mod Laws
pub mod Exit
use nimbuscore.Prelude.{
  ℤ, pos, eq_ℤ, String, Bool, true, false, not, ◌&&◌, ◌||◌, any, List, [], ◌∷◌, Option, none, some,
  Assoc, lookup, insert, has_prefix, ◌==◌, if◌then◌else◌,
}
use nimbuscore.Api.{
  Pod, PodStatus, PodPhase, phase_running, phase_failed, phase_succeeded, RestartPolicy,
  restart_unspecified, restart_always, restart_on_failure, restart_never, Service,
}
use nimbuscore.Agent.Host.{
  Reply, done, failed, blocked, Host, Act, give, ◌>>=◌, ◌>>◌, just, list_containerd_task_statuses,
  remove_containerd_container,
}
use nimbuscore.Agent.Runtime.{
  ExitEvent, ProcessRuntime, State, pod_key, container_name, has, is_there, keys, restart_count,
  pod_of, on_host, start, restart, stop, stop_all, adopt_if_running, still_running,
  memory_usage_bytes,
}
use nimbuscore.Agent.Runtime.Exits.{check_containerd_exits}
use nimbuscore.Agent.NodePorts
use nimbuscore.Agent.NodePorts.{Ports, PortProxy}

-- The test of handleExit.
abbrev pub should_restart : RestartPolicy → ℤ → Bool
should_restart restart_unspecified code = true
should_restart restart_always code = true
should_restart restart_on_failure code = not (eq_ℤ code (pos 0))
should_restart restart_never code = false

abbrev pub terminal_phase : ℤ → PodPhase
terminal_phase code = if eq_ℤ code (pos 0) then phase_succeeded else phase_failed

-- The first loop of reconcile: the pods of this node by their keys.
unfoldable pub desired_pods : String → Assoc Pod → List Pod → Assoc Pod
desired_pods node_name m [] = m
desired_pods node_name m (p ∷ ps) =
    desired_pods node_name (if p.spec.node_name == node_name then insert (pod_key p) p m else m) ps

abbrev pub is_orphan : Assoc Pod → String → Bool
is_orphan desired name =
    has_prefix name "nimbus-" && not (any (λ e. container_name e.1 == name) desired)

abbrev pub is_desired : Assoc Pod → String → Bool
is_desired desired key = is_there (lookup key desired)

-- Config, as far as the loop reads it. `has_services` says whether the agent has a client of the
-- service API.
pub record Config : Type 0 where
  pub node_name : String
  pub internal_ip : String
  pub has_services : Bool

-- The agent: what it runs, and the ports that it forwards.
pub record Agent (W : Type 0) : Type 0 where
  pub state : State W
  pub ports : Ports PortProxy

-- What the loop of Run wakes up for.
pub data Signal : Type 0 where
  cancelled exit_received ticked : Signal

module _ {W : Type 0} (host : Host W) where
  abbrev pub reported : PodPhase → String → ℤ → ℤ → PodStatus
  reported phase message restarts bytes = record {
    phase = phase;
    message = message;
    restart_count = restarts;
    memory_usage_bytes = bytes;
  }

  -- reportStatus. An error of the control plane is logged only.
  unfoldable pub report_status : Pod → PodStatus → State W → State W
  report_status pod status s =
      let (r, w) = host.update_pod_status pod.metadata.namespace pod.metadata.name status s.world in
      record s { world = w }

  abbrev pub started_pod : Pod → Reply (Unit {0}) → State W → State W
  started_pod pod (done u) s = report_status pod (reported phase_running "" (pos 0) (pos 0)) s
  started_pod pod (failed e) s = report_status pod (reported phase_failed e (pos 0) (pos 0)) s
  started_pod pod blocked s = s

  -- startPod
  unfoldable pub start_pod : Pod → State W → State W
  unfolding report_status
  start_pod pod s = let (r, t) = start host pod s in started_pod pod r t

  abbrev pub restarted_pod : Pod → String → Reply (Unit {0}) → State W → State W
  restarted_pod pod key (done u) s =
      report_status pod (reported phase_running "" (restart_count s.runtime key) (pos 0)) s
  restarted_pod pod key (failed e) s =
      report_status pod (reported phase_failed e (restart_count s.runtime key) (pos 0)) s
  restarted_pod pod key blocked s = s

  abbrev pub exited_pod : ExitEvent → Pod → Bool × State W → State W
  exited_pod ev pod (true, s) = s
  exited_pod ev pod (false, s) =
      if should_restart pod.spec.restart_policy ev.exit_code
      then (let (r, t) = restart host pod s in restarted_pod pod ev.key r t)
      else report_status pod (reported (terminal_phase ev.exit_code) "" (pos 0) (pos 0))
          (stop host ev.key s)

  abbrev pub exited_of : ExitEvent → Option Pod → State W → State W
  exited_of ev none s = s
  exited_of ev (some pod) s = exited_pod ev pod (still_running host ev.key s)

  -- handleExit
  unfoldable pub handle_exit : ExitEvent → State W → State W
  unfolding report_status
  handle_exit ev s = exited_of ev (pod_of s.runtime ev.key) s

  -- The loop of removeOrphanContainers.
  unfoldable pub remove_each : Assoc Pod → Assoc Bool → W → W
  remove_each desired [] w = w
  remove_each desired ((name, running) ∷ m) w =
      remove_each desired m
        (if is_orphan desired name then remove_containerd_container host name w else w)

  abbrev pub orphans_removed : Assoc Pod → Reply (Assoc Bool) → W → W
  orphans_removed desired (done statuses) w = remove_each desired statuses w
  orphans_removed desired (failed e) w = w
  orphans_removed desired blocked w = w

  -- reconcileOrphanContainers
  unfoldable pub reconcile_orphan_containers : Assoc Pod → State W → State W
  unfolding remove_each
  reconcile_orphan_containers desired s =
      let (r, w) = list_containerd_task_statuses host s.world in
      record s { world = orphans_removed desired r w }

  abbrev pub unless_adopted : Pod → Bool × State W → State W
  unless_adopted pod (true, s) = s
  unless_adopted pod (false, s) = start_pod pod s

  abbrev pub ensured : String → Pod → State W → State W
  ensured key pod s =
      if has s.runtime key then s else unless_adopted pod (adopt_if_running host pod s)

  -- The second loop of reconcile.
  unfoldable pub start_missing : Assoc Pod → State W → State W
  unfolding start_pod
  start_missing [] s = s
  start_missing ((key, pod) ∷ m) s = start_missing m (ensured key pod s)

  -- The third loop of reconcile, over the keys.
  unfoldable pub stop_others : Assoc Pod → List String → State W → State W
  stop_others desired [] s = s
  stop_others desired (key ∷ ks) s =
      stop_others desired ks (if is_desired desired key then s else stop host key s)

  abbrev pub reported_running : String → Option Pod → State W → State W
  reported_running key none s = s
  reported_running key (some pod) s =
      let restarts = restart_count s.runtime key in
      let (bytes, t) = memory_usage_bytes host key s in
      report_status pod (reported phase_running "" restarts bytes) t

  -- The last loop of reconcile.
  unfoldable pub report_each : List String → State W → State W
  unfolding report_status
  report_each [] s = s
  report_each (key ∷ ks) s = report_each ks (reported_running key (pod_of s.runtime key) s)

  -- What reconcile does behind the check for exits.
  unfoldable pub settle : Assoc Pod → State W → State W
  unfolding reconcile_orphan_containers start_missing stop_others report_each
  settle desired s =
      let t = start_missing desired (reconcile_orphan_containers desired s) in
      let u = stop_others desired (keys t.runtime) t in report_each (keys u.runtime) u

  abbrev pub settled : Assoc Pod → Reply (Unit {0}) × State W → Reply (Unit {0}) × State W
  settled desired (done u, s) = (done tt, settle desired s)
  settled desired (failed e, s) = (failed e, s)
  settled desired (blocked, s) = (blocked, s)

  abbrev pub reconciled : String → Reply (List Pod) → Act (State W) (Unit {0})
  reconciled node_name (done pods) s =
      settled (desired_pods node_name [] pods) (check_containerd_exits host s)
  reconciled node_name (failed e) s = (done tt, s)
  reconciled node_name blocked s = (blocked, s)

  -- reconcile. It does not return where the check for exits does not.
  unfoldable pub reconcile : String → Act (State W) (Unit {0})
  unfolding desired_pods settle
  reconcile node_name s =
      let (r, w) = host.list_pods s.world in reconciled node_name r (record s { world = w })

  abbrev pub forwarded : String → Reply (List Service) → Agent W → Agent W
  forwarded ip (done services) a =
      let (ports, w) = NodePorts.reconcile host services ip (a.ports, a.state.world) in
      record { state = record a.state { world = w }; ports = ports }
  forwarded ip (failed e) a = a
  forwarded ip blocked a = a

  -- reconcileServices
  unfoldable pub reconcile_services : Config → Agent W → Agent W
  reconcile_services cfg a =
      if not cfg.has_services || cfg.internal_ip == ""
      then a
      else (let (r, w) = host.list_services a.state.world in
          forwarded cfg.internal_ip r (record a { state = record a.state { world = w } }))

  abbrev pub received : List ExitEvent → State W → State W
  received [] s = s
  received (ev ∷ evs) s = handle_exit ev (record s { runtime = record s.runtime { exited = evs } })

  abbrev pub serviced :
      Config → Reply (Unit {0}) × State W → Ports PortProxy → Reply (Unit {0}) × Agent W
  serviced cfg (done u, s) ports =
      (done tt, reconcile_services cfg (record { state = s; ports = ports }))
  serviced cfg (failed e, s) ports = (failed e, record { state = s; ports = ports })
  serviced cfg (blocked, s) ports = (blocked, record { state = s; ports = ports })

  abbrev pub ended_with : Ports PortProxy × W → State W → Agent W
  ended_with (ports, w) s = record { state = record s { world = w }; ports = ports }

  -- One round of the loop of Run.
  unfoldable pub round : Config → Signal → Agent W → Reply (Unit {0}) × Agent W
  unfolding handle_exit reconcile reconcile_services
  round cfg cancelled a =
      let s = stop_all host a.state in
      (done tt, ended_with (NodePorts.stop_all host a.ports (a.ports, s.world)) s)
  round cfg exit_received a =
      (done tt, record a { state = received a.state.runtime.exited a.state })
  round cfg ticked a = serviced cfg (reconcile cfg.node_name a.state) a.ports
