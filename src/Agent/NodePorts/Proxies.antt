-- ===== src/Agent/NodePorts/Proxies.antt =====
-- After a reconciliation exactly the ports that its first loop gives are forwarded, as far as they could
-- be listened on.
use nimbuscore.Prelude.{
  ℕ, ℤ, eq_ℤ, eq_ℤ_iff, String, false, List, [], ◌∷◌, Option, none, some, eq_iff, if◌then◌else◌,
  ◌≡◌, refl, ◌∙◌, arith, Bool-cases, Option-cases, inl, inr, subst,
}
use nimbuscore.Api.{Service}
use nimbuscore.Agent.Host.{Reply, done, failed, blocked, Host}
use nimbuscore.Agent.NodePorts.{
  Ports, PortProxy, port_at, set_port, clear_port, desired_ports, start_port_proxy, replaced,
  start_each, stop_unwanted, started, is_wanted, reconcile, asks, local_target, target_port,
}

module _ {A : Type 0} where
  pub port_at-set_port :
      (p q : ℤ) (a : A) (m : Ports A)
      → port_at q (set_port p a m) ≡ (if eq_ℤ p q then some a else port_at q m)
  unfolding port_at set_port
  port_at-set_port p q a [] = refl
  port_at-set_port p q a ((r, b) ∷ m) =
      ground (arith, port_at-set_port p q a m, eq_ℤ_iff r p, eq_ℤ_iff r q, eq_ℤ_iff p q)

  port_at-clear_port :
      (p q : ℤ) (m : Ports A)
      → port_at q (clear_port p m) ≡ (if eq_ℤ p q then none else port_at q m)
  unfolding port_at clear_port
  port_at-clear_port p q [] = ground arith
  port_at-clear_port p q ((r, b) ∷ m) =
      ground (arith, port_at-clear_port p q m, eq_ℤ_iff r p, eq_ℤ_iff r q, eq_ℤ_iff p q)

  abbrev pub LacksPort : ℤ → Ports A → Type 0
  LacksPort p [] = Unit
  LacksPort p ((q, a) ∷ m) = (eq_ℤ q p ≡ false) × LacksPort p m

  abbrev pub HasPortsOnce : Ports A → Type 0
  HasPortsOnce [] = Unit
  HasPortsOnce ((p, a) ∷ m) = LacksPort p m × HasPortsOnce m

  LacksPort-set_port :
      (p q : ℤ) (a : A) (m : Ports A)
      → eq_ℤ p q ≡ false
      → LacksPort q m
      → LacksPort q (set_port p a m)
  unfolding set_port
  LacksPort-set_port p q a [] n h = (n, tt)
  LacksPort-set_port p q a ((r, b) ∷ m) n h = ground (arith, LacksPort-set_port p q a m n h.1)

  set_port-HasPortsOnce :
      (p : ℤ) (a : A) (m : Ports A) → HasPortsOnce m → HasPortsOnce (set_port p a m)
  unfolding set_port
  set_port-HasPortsOnce p a [] h = (tt, tt)
  set_port-HasPortsOnce p a ((r, b) ∷ m) h = elim (Bool-cases (eq_ℤ r p)) [
    | inl e ↦ rw e (subst (λ q. LacksPort q m) ((eq_ℤ_iff r p).0 e) h.0, h.1)
    | inr e ↦ rw e (
      LacksPort-set_port p r a m (ground (arith, eq_ℤ_iff r p, eq_ℤ_iff p r)) h.0,
      set_port-HasPortsOnce p a m h.1,
    )
  ]

desired_ports-HasPortsOnce :
    (self_ip : String) (m : Ports String) (ss : List Service)
    → HasPortsOnce m
    → HasPortsOnce (desired_ports self_ip m ss)
unfolding desired_ports
desired_ports-HasPortsOnce self_ip m [] h = h
desired_ports-HasPortsOnce self_ip m (s ∷ ss) h = elim (Bool-cases (asks self_ip s)) [
  | inl e ↦ rw e (
      desired_ports-HasPortsOnce self_ip
        (set_port s.spec.node_port (local_target (target_port s)) m) ss
        (set_port-HasPortsOnce s.spec.node_port (local_target (target_port s)) m h))
  | inr e ↦ rw e (desired_ports-HasPortsOnce self_ip m ss h)
]

abbrev pub targeted : Option PortProxy → Option String
targeted none = none
targeted (some p) = some p.target

module _ {W : Type 0} (host : Host W) where
  started-other :
      (p q : ℤ) (target : String) (r : Reply ℕ) (m : Ports PortProxy) (w : W)
      → eq_ℤ q p ≡ false
      → port_at p (started host q target r (m, w)).0 ≡ port_at p m
  started-other p q target (done l) m w n =
      ground (arith, port_at-set_port q p (record { listener = l; target = target }) m)
  started-other p q target (failed e) m w n = refl
  started-other p q target blocked m w n = refl

  start_port_proxy-other :
      (p q : ℤ) (target : String) (m : Ports PortProxy) (w : W)
      → eq_ℤ q p ≡ false
      → port_at p (start_port_proxy host q target (m, w)).0 ≡ port_at p m
  unfolding start_port_proxy
  start_port_proxy-other p q target m w n =
      started-other p q target (host.listen q w).0 m (host.listen q w).1 n

  replaced-other :
      (p q : ℤ) (target : String) (o : Option PortProxy) (m : Ports PortProxy) (w : W)
      → eq_ℤ q p ≡ false
      → port_at p (replaced host q target o (m, w)).0 ≡ port_at p m
  replaced-other p q target none m w n = start_port_proxy-other p q target m w n
  replaced-other p q target (some r) m w n = ground (
    arith,
    start_port_proxy-other p q target (clear_port q m) (host.close r.listener w),
    port_at-clear_port q p m,
  )

  start_each-other :
      (p : ℤ) (d : Ports String) (m : Ports PortProxy) (w : W)
      → LacksPort p d
      → port_at p (start_each host d (m, w)).0 ≡ port_at p m
  unfolding start_each
  start_each-other p [] m w h = refl
  start_each-other p ((q, target) ∷ d) m w h =
      let r = replaced host q target (port_at q m) (m, w) in
      start_each-other p d r.0 r.1 h.1 ∙ replaced-other p q target (port_at q m) m w h.0

  module _ (listens : (p : ℤ) (w : W) → (l : ℕ) × ((host.listen p w).0 ≡ done l)) where
    start_port_proxy_self :
        (p : ℤ) (target : String) (m : Ports PortProxy) (w : W)
        → targeted (port_at p (start_port_proxy host p target (m, w)).0) ≡ some target
    unfolding start_port_proxy
    start_port_proxy_self p target m w =
        let (l, e) = listens p w in
        ground (
          arith,
          port_at-set_port p p (record { listener = l; target = target }) m,
          (eq_ℤ_iff p p).1 refl,
        )

    replaced_self :
        (p : ℤ) (target : String) (o : Option PortProxy) (m : Ports PortProxy) (w : W)
        → port_at p m ≡ o
        → targeted (port_at p (replaced host p target o (m, w)).0) ≡ some target
    replaced_self p target none m w e = start_port_proxy_self p target m w
    replaced_self p target (some r) m w e = ground (
      arith,
      start_port_proxy_self p target (clear_port p m) (host.close r.listener w),
      eq_iff r.target target,
    )

    start_each_self :
        (p : ℤ) (target : String) (d : Ports String) (m : Ports PortProxy) (w : W)
        → HasPortsOnce d
        → port_at p d ≡ some target
        → targeted (port_at p (start_each host d (m, w)).0) ≡ some target
    unfolding start_each port_at
    start_each_self p target [] m w once at = ground arith
    start_each_self p target ((q, aim) ∷ d) m w once at =
        let r = replaced host q aim (port_at q m) (m, w) in
        elim (Bool-cases (eq_ℤ q p)) [
          | inl e ↦ ground (
            arith,
            start_each-other q d r.0 r.1 once.0,
            replaced_self q aim (port_at q m) m w refl,
            eq_ℤ_iff q p,
          )
          | inr n ↦ start_each_self p target d r.0 r.1 once.1 (ground arith)
        ]

  stop_unwanted-port_at :
      (desired : Ports String) (p : ℤ) (l m : Ports PortProxy) (w : W)
      → port_at p (stop_unwanted host desired l (m, w)).0 ≡ (
          if is_wanted host desired p
          then port_at p m
          else elim (port_at p l) [ none ↦ port_at p m | some r ↦ none ])
  unfolding stop_unwanted port_at
  stop_unwanted-port_at desired p [] m w = ground arith
  stop_unwanted-port_at desired p ((q, r) ∷ l) m w = ground (
    arith,
    stop_unwanted-port_at desired p l m w,
    stop_unwanted-port_at desired p l (clear_port q m) (host.close r.listener w),
    port_at-clear_port q p m,
    eq_ℤ_iff q p,
  )

  pub reconcile-desired :
      (listens : (p : ℤ) (w : W) → (l : ℕ) × ((host.listen p w).0 ≡ done l))
      (services : List Service) (self_ip : String) (active : Ports PortProxy) (w : W) (p : ℤ)
      → targeted (port_at p (reconcile host services self_ip (active, w)).0)
        ≡ port_at p (desired_ports self_ip [] services)
  unfolding reconcile
  reconcile-desired listens services self_ip active w p =
      let d = desired_ports self_ip [] services in
      let s = start_each host d (active, w) in
      let stopped = stop_unwanted-port_at d p s.0 s.0 s.1 in
      elim (Option-cases (port_at p d)) [
        | inl e ↦ ground arith
        | inr (target, e) ↦ ground (
          arith,
          start_each_self listens p target d active w
              (desired_ports-HasPortsOnce self_ip [] services tt) e,
        )
      ]
