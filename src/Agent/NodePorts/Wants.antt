-- ===== src/Agent/NodePorts/Wants.antt =====
-- What the services want on a node, and what the first loop of a reconciliation gives for it.
use Prim.Native.String
use nimbuscore.Prelude.{
  true, any, any_iff, ◌==◌, ◌++◌, ◌⊎◌, ◌≢◌, ◌↔◌, pos, All, Has, ap, ℤ, eq_ℤ, eq_ℤ_iff, String,
  false, List, [], ◌∷◌, Option, none, some, eq_iff, if◌then◌else◌, ◌≡◌, refl, ◌∙◌, arith,
  Bool-cases, inl, inr, subst,
}
use nimbuscore.Api.{Service}
use nimbuscore.Controller.Schedule.{decimal}
use nimbuscore.Agent.NodePorts.{
  Ports, port_at, set_port, desired_ports, asks, local_target, target_port,
}
use nimbuscore.Agent.NodePorts.Proxies.{port_at-set_port}

-- The port behind a service: its target port, or its own port where that is 0.
abbrev pub Backs : Service → ℤ → Type 0
Backs s n =
    ((s.spec.target_port ≡ n) ⊎ ((s.spec.target_port ≡ pos 0) × (s.spec.port ≡ n))) × (n ≢ pos 0)

-- The service wants the node port `p`, which is not 0, on the node with this address to lead to the port
-- `n` of the node: one of its endpoints is on the node.
abbrev pub Wants : String → ℤ → Service → ℤ → Type 0
Wants self_ip p s n =
    (s.spec.node_port ≡ p) × (p ≢ pos 0) × Backs s n × Has (λ ep. ep.node_ip ≡ self_ip) s.endpoints

-- No service of the list wants the port.
abbrev pub IsUnwanted : String → ℤ → List Service → Type 0
IsUnwanted self_ip p = All (λ s. (n : ℤ) → ¬ Wants self_ip p s n)

-- Where the port leads to: nowhere if no service wants it, else to what the last service that wants it
-- wants.
pub data LeadsTo (self_ip : String) (p : ℤ) (services : List Service) : Option String → Type 0 where
  nowhere : IsUnwanted self_ip p services → LeadsTo self_ip p services none
  backed :
      (before : List Service) (s : Service) (after : List Service) (n : ℤ)
      → services ≡ before ++ s ∷ after
      → Wants self_ip p s n
      → IsUnwanted self_ip p after
      → LeadsTo self_ip p services (some (String.◌++◌ "127.0.0.1:" (decimal n)))

target_port-Backs : (s : Service) → eq_ℤ (target_port s) (pos 0) ≡ false → Backs s (target_port s)
target_port-Backs s h = elim (Bool-cases (eq_ℤ s.spec.target_port (pos 0))) [
  | inl e ↦ rw e (
    inr ((eq_ℤ_iff s.spec.target_port (pos 0)).0 e, refl),
    λ z. ground (arith, h, (eq_ℤ_iff s.spec.port (pos 0)).1 z),
  )
  | inr e ↦ rw e (inl refl, λ z. ground (arith, (eq_ℤ_iff s.spec.target_port (pos 0)).1 z))
]

Backs-target_port : (s : Service) (n : ℤ) → Backs s n → target_port s ≡ n
Backs-target_port s n (inl e, z) = ground (arith, eq_ℤ_iff s.spec.target_port (pos 0))
Backs-target_port s n (inr (e, f), z) = ground (arith, (eq_ℤ_iff s.spec.target_port (pos 0)).1 e)

on_node_iff :
    (self_ip : String) (s : Service)
    → (any (λ ep. ep.node_ip == self_ip) s.endpoints ≡ true)
      ↔ Has (λ ep. ep.node_ip ≡ self_ip) s.endpoints
on_node_iff self_ip s =
    any_iff (λ ep. ep.node_ip == self_ip) (λ ep. ep.node_ip ≡ self_ip)
      (λ ep. eq_iff ep.node_ip self_ip) s.endpoints

asks-Wants :
    (self_ip : String) (s : Service)
    → asks self_ip s ≡ true
    → Wants self_ip s.spec.node_port s (target_port s)
asks-Wants self_ip s h = (
  refl,
  λ z. ground (arith, h, (eq_ℤ_iff s.spec.node_port (pos 0)).1 z),
  target_port-Backs s (ground arith),
  (on_node_iff self_ip s).0 (ground arith),
)

Wants-asks :
    (self_ip : String) (p : ℤ) (s : Service) (n : ℤ)
    → Wants self_ip p s n
    → (asks self_ip s ≡ true) × (s.spec.node_port ≡ p)
Wants-asks self_ip p s n (at, z, backs, on) = (
  ground (
    arith,
    eq_ℤ_iff s.spec.node_port (pos 0),
    eq_ℤ_iff (target_port s) (pos 0),
    Backs-target_port s n backs,
    (on_node_iff self_ip s).1 on,
  ),
  at,
)

module _ (self_ip : String) (p : ℤ) where
  -- What the loop has for the port, where `m` is what it started from.
  abbrev pub Leads : Ports String → List Service → Type 0
  Leads m ss =
      (IsUnwanted self_ip p ss × (port_at p (desired_ports self_ip m ss) ≡ port_at p m))
      ⊎ ((before : List Service) × (s : Service) × (after : List Service) × (n : ℤ) × (ss
            ≡ before ++ s ∷ after)
          × Wants self_ip p s n
          × IsUnwanted self_ip p after
          × (port_at p (desired_ports self_ip m ss) ≡ some (String.◌++◌ "127.0.0.1:" (decimal n))))

  -- The first service, before those of which nobody wants the port.
  first_service :
      (s : Service) (ss : List Service) (m : Ports String) (l : Option String)
      → IsUnwanted self_ip p ss
      → l
        ≡ port_at p (
            if asks self_ip s
            then set_port s.spec.node_port (local_target (target_port s)) m
            else m)
      → ((IsUnwanted self_ip p (s ∷ ss)) × (l ≡ port_at p m))
        ⊎ ((n : ℤ) × Wants self_ip p s n × (l ≡ some (String.◌++◌ "127.0.0.1:" (decimal n))))
  first_service s ss m l un e = elim (Bool-cases (asks self_ip s)) [
    | inl a ↦ elim (Bool-cases (eq_ℤ s.spec.node_port p)) [
      | inl q ↦ inr (
        target_port s,
        subst (λ r. Wants self_ip r s (target_port s)) ((eq_ℤ_iff s.spec.node_port p).0 q)
            (asks-Wants self_ip s a),
        e ∙ rw a (port_at-set_port s.spec.node_port p (local_target (target_port s)) m ∙ rw q refl),
      )
      | inr q ↦ inl (
        (
          λ n w. ground (arith, q, (eq_ℤ_iff s.spec.node_port p).1 (Wants-asks self_ip p s n w).1),
          un,
        ),
        e ∙ rw a (port_at-set_port s.spec.node_port p (local_target (target_port s)) m ∙ rw q refl),
      )
    ]
    | inr a ↦ inl ((λ n w. ground (arith, a, (Wants-asks self_ip p s n w).0), un), e ∙ rw a refl)
  ]

  pub desired_ports-Leads : (m : Ports String) (ss : List Service) → Leads m ss
  unfolding desired_ports
  desired_ports-Leads m [] = inl (tt, refl)
  desired_ports-Leads m (s ∷ ss) =
      let next =
        if asks self_ip s then set_port s.spec.node_port (local_target (target_port s)) m else m in
      elim (desired_ports-Leads next ss) [
        | inr (before, t, after, n, at, w, un, e) ↦
            inr (s ∷ before, t, after, n, ap (λ l. s ∷ l) at, w, un, e)
        | inl (un, e) ↦
            elim (first_service s ss m (port_at p (desired_ports self_ip next ss)) un e) [
              | inl kept ↦ inl kept
              | inr (n, w, f) ↦ inr ([], s, ss, n, refl, w, un, f)
            ]
      ]
