-- ===== src/Netpolicy.antt =====
-- internal/netpolicy/engine.go: whether a packet from one pod may reach another.
pub mod Laws
mod Tests
use nimbuscore.Prelude.{
  String, Bool, true, false, not, ◌&&◌, ◌||◌, List, [], ◌∷◌, Assoc, lookup_or, any, all, is_empty,
  ℤ, pos, eq_ℤ, ◌==◌,
}

pub record Port : Type 0 where
  pub protocol : String
  pub port : ℤ

-- A peer is given by its labels.
pub record Ingress : Type 0 where
  pub ports : List Port
  pub peers : List (Assoc String)

pub record Policy : Type 0 where
  pub pod_selector : Assoc String
  pub ingress : List Ingress

-- selectorMatches, and labelsMatch of internal/apiserver/service_service.go: a missing label reads
-- as the empty text
unfoldable pub selector_matches : Assoc String → Assoc String → Bool
selector_matches selector labels = all (λ (k, v). lookup_or "" k labels == v) selector

-- `equal_fold` is the library's comparison strings.EqualFold.
module _ (equal_fold : String → String → Bool) where
  abbrev pub port_matches : String → ℤ → Port → Bool
  port_matches protocol port p =
      (eq_ℤ p.port (pos 0) || eq_ℤ p.port port)
      && (p.protocol == "" || equal_fold p.protocol protocol)

  unfoldable pub port_allowed : List Port → String → ℤ → Bool
  port_allowed ports protocol port = is_empty ports || any (port_matches protocol port) ports

  unfoldable pub peer_allowed : List (Assoc String) → Assoc String → Bool
  unfolding selector_matches
  peer_allowed peers source = is_empty peers || any (λ s. selector_matches s source) peers

  abbrev pub ingress_allowed : Assoc String → String → ℤ → Ingress → Bool
  ingress_allowed source protocol port i =
      port_allowed i.ports protocol port && peer_allowed i.peers source

  abbrev pub policy_allowed : Assoc String → Assoc String → String → ℤ → Policy → Bool
  policy_allowed source dest protocol port p =
      selector_matches p.pod_selector dest && any (ingress_allowed source protocol port) p.ingress

  -- Allowed
  unfoldable pub allowed : List Policy → Assoc String → Assoc String → String → ℤ → Bool
  allowed policies source dest protocol port =
      any (policy_allowed source dest protocol port) policies
