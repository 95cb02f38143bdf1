-- ===== src/Agent/NodePorts.antt =====
-- internal/agent/nodeport.go: the ports of this node that are forwarded to a pod on it.
pub mod Proxies
pub mod Wants
pub mod Laws
use Prim.Native.String.{◌++◌}
use nimbuscore.Prelude.{
  ℕ, ℤ, pos, eq_ℤ, String, Bool, true, false, any, List, [], ◌∷◌, Option, none, some, ◌==◌,
  if◌then◌else◌,
}
use nimbuscore.Api.{Service, ServiceEndpoint}
use nimbuscore.Controller.Schedule.{decimal}
use nimbuscore.Agent.Host.{Reply, done, failed, blocked, Host}

-- Go's maps with port numbers as keys.
abbrev pub Ports : Type 0 → Type 0
Ports A = List (ℤ × A)

module _ {A : Type 0} where
  unfoldable pub port_at : ℤ → Ports A → Option A
  port_at p [] = none
  port_at p ((q, a) ∷ m) = if eq_ℤ q p then some a else port_at p m

  unfoldable pub set_port : ℤ → A → Ports A → Ports A
  set_port p a [] = (p, a) ∷ []
  set_port p a ((q, b) ∷ m) = if eq_ℤ q p then (p, a) ∷ m else (q, b) ∷ set_port p a m

  unfoldable pub clear_port : ℤ → Ports A → Ports A
  clear_port p [] = []
  clear_port p ((q, b) ∷ m) = let rest = clear_port p m in if eq_ℤ q p then rest else (q, b) ∷ rest

-- portProxy: the listener by its handle. Its context is cancelled together with its closing.
pub record PortProxy : Type 0 where
  pub listener : ℕ
  pub target : String

abbrev pub target_port : Service → ℤ
target_port s = if eq_ℤ s.spec.target_port (pos 0) then s.spec.port else s.spec.target_port

abbrev pub local_target : ℤ → String
local_target port = "127.0.0.1:" ++ decimal port

-- A service asks for its node port if it has one, a port behind it, and an endpoint on this node.
abbrev pub asks : String → Service → Bool
asks self_ip s =
    if eq_ℤ s.spec.node_port (pos 0)
    then false
    else if eq_ℤ (target_port s) (pos 0)
    then false
    else any (λ ep. ep.node_ip == self_ip) s.endpoints

-- The first loop of reconcile. A later service takes a port over.
unfoldable pub desired_ports : String → Ports String → List Service → Ports String
desired_ports self_ip m [] = m
desired_ports self_ip m (s ∷ ss) =
    desired_ports self_ip
      (if asks self_ip s then set_port s.spec.node_port (local_target (target_port s)) m else m) ss

module _ {W : Type 0} (host : Host W) where
  abbrev pub started : ℤ → String → Reply ℕ → Ports PortProxy × W → Ports PortProxy × W
  started port target (done l) (m, w) =
      (set_port port (record { listener = l; target = target }) m, w)
  started port target (failed e) (m, w) = (m, w)
  started port target blocked (m, w) = (m, w)

  -- startPortProxy, and what reconcile does with the proxy
  unfoldable pub start_port_proxy : ℤ → String → Ports PortProxy × W → Ports PortProxy × W
  start_port_proxy port target (m, w) =
      let (l, v) = host.listen port w in started port target l (m, v)

  abbrev pub replaced : ℤ → String → Option PortProxy → Ports PortProxy × W → Ports PortProxy × W
  replaced port target none (m, w) = start_port_proxy port target (m, w)
  replaced port target (some p) (m, w) =
      if p.target == target
      then (m, w)
      else start_port_proxy port target (clear_port port m, host.close p.listener w)

  -- The second loop of reconcile.
  unfoldable pub start_each : Ports String → Ports PortProxy × W → Ports PortProxy × W
  unfolding start_port_proxy
  start_each [] s = s
  start_each ((port, target) ∷ d) (m, w) =
      start_each d (replaced port target (port_at port m) (m, w))

  abbrev pub is_wanted : Ports String → ℤ → Bool
  is_wanted desired port = elim (port_at port desired) [ none ↦ false | some t ↦ true ]

  -- The third loop of reconcile, over the active proxies.
  unfoldable pub stop_unwanted :
      Ports String → Ports PortProxy → Ports PortProxy × W → Ports PortProxy × W
  stop_unwanted desired [] s = s
  stop_unwanted desired ((port, p) ∷ l) (m, w) =
      stop_unwanted desired l
        (if is_wanted desired port then (m, w) else (clear_port port m, host.close p.listener w))

  -- nodePortManager.reconcile
  unfoldable pub reconcile : List Service → String → Ports PortProxy × W → Ports PortProxy × W
  unfolding desired_ports start_each stop_unwanted
  reconcile services self_ip s =
      let desired = desired_ports self_ip [] services in
      let t = start_each desired s in stop_unwanted desired t.0 t

  -- nodePortManager.stopAll
  unfoldable pub stop_all : Ports PortProxy → Ports PortProxy × W → Ports PortProxy × W
  stop_all [] s = s
  stop_all ((port, p) ∷ l) (m, w) = stop_all l (clear_port port m, host.close p.listener w)
