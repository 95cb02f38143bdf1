-- ===== src/Agent/NodePorts/Laws.antt =====
-- What is forwarded after a reconciliation.
use nimbuscore.Prelude.{sym, ℕ, ℤ, String, List, [], ◌≡◌, inl, inr, subst}
use nimbuscore.Api.{Service}
use nimbuscore.Agent.Host.{done, Host}
use nimbuscore.Agent.NodePorts.{Ports, PortProxy, port_at, reconcile}
use nimbuscore.Agent.NodePorts.Proxies.{targeted, reconcile-desired}
use nimbuscore.Agent.NodePorts.Wants.{LeadsTo, nowhere, backed, desired_ports-Leads}

-- If every port can be listened on, then after a reconciliation, whatever was forwarded before, each
-- port is forwarded to what the last service wants that wants it on this node, and to nothing if no
-- service does. A service wants its node port, if that is not 0, to lead to its target port on the
-- node, or to its own port where the target port is 0, provided that this port is not 0 and that one of
-- its endpoints is on the node.
pub reconcile-forwards :
    {W : Type 0} (host : Host W)
    (listens : (p : ℤ) (w : W) → (l : ℕ) × ((host.listen p w).0 ≡ done l)) (services : List Service)
    (self_ip : String) (active : Ports PortProxy) (w : W) (p : ℤ)
    → LeadsTo self_ip p services
        (targeted (port_at p (reconcile host services self_ip (active, w)).0))
unfolding port_at
reconcile-forwards host listens services self_ip active w p =
    subst (LeadsTo self_ip p services)
      (sym (reconcile-desired host listens services self_ip active w p))
      (elim (desired_ports-Leads self_ip p [] services) [
        | inl (un, e) ↦ subst (LeadsTo self_ip p services) (sym e) (nowhere un)
        | inr (before, s, after, n, at, wants, un, e) ↦
            subst (LeadsTo self_ip p services) (sym e) (backed before s after n at wants un)
      ])
