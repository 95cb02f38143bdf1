-- ===== src/Netpolicy/Laws.antt =====
-- What `Allowed` decides, as a statement about the policies.
use nimbuscore.Prelude.{
  String, ◌≡◌, ◌↔◌, ◌⊎◌, Bool, true, List, [], Assoc, lookup_or, any_iff, all_iff, is_empty_iff,
  All, Has, eq_iff, &&_iff_of, ||_iff_of, ℤ, pos, eq_ℤ_iff,
}
use nimbuscore.Netpolicy.{
  Port, Ingress, Policy, selector_matches, port_matches, port_allowed, peer_allowed,
  ingress_allowed, policy_allowed, allowed,
}

-- Each label of the selector stands on the pod, where a missing label is the empty text.
abbrev pub Selects : Assoc String → Assoc String → Type 0
Selects selector labels = All (λ (k, v). lookup_or "" k labels ≡ v) selector

pub Selects-iff :
    (selector labels : Assoc String)
    → (selector_matches selector labels ≡ true) ↔ Selects selector labels
unfolding selector_matches
Selects-iff selector labels =
    all_iff _ (λ (k, v). lookup_or "" k labels ≡ v) (λ (k, v). eq_iff _ v) selector

module _ (equal_fold : String → String → Bool) (protocol : String) (port : ℤ) where
  -- Port 0 is any port, and the empty protocol any protocol.
  abbrev pub Opens : Port → Type 0
  Opens p =
      ((p.port ≡ pos 0) ⊎ (p.port ≡ port))
      × ((p.protocol ≡ "") ⊎ (equal_fold p.protocol protocol ≡ true))

  Opens-iff : (p : Port) → (port_matches equal_fold protocol port p ≡ true) ↔ Opens p
  Opens-iff p =
      &&_iff_of (||_iff_of (eq_ℤ_iff p.port (pos 0)) (eq_ℤ_iff p.port port))
        (||_iff_of (eq_iff p.protocol "") (λ h. h, λ h. h))

  -- No port is every port, and no peer is every peer.
  abbrev pub Admits : Assoc String → Ingress → Type 0
  Admits source i =
      ((i.ports ≡ []) ⊎ Has Opens i.ports) × ((i.peers ≡ []) ⊎ Has (λ s. Selects s source) i.peers)

  Admits-iff :
      (source : Assoc String) (i : Ingress)
      → (ingress_allowed equal_fold source protocol port i ≡ true) ↔ Admits source i
  unfolding port_allowed peer_allowed
  Admits-iff source i =
      &&_iff_of (||_iff_of (is_empty_iff i.ports) (any_iff _ Opens Opens-iff i.ports)) (
        ||_iff_of (is_empty_iff i.peers)
          (any_iff _ (λ s. Selects s source) (λ s. Selects-iff s source) i.peers))

  abbrev pub Lets : Assoc String → Assoc String → Policy → Type 0
  Lets source dest p = Selects p.pod_selector dest × Has (Admits source) p.ingress

  Lets-iff :
      (source dest : Assoc String) (p : Policy)
      → (policy_allowed equal_fold source dest protocol port p ≡ true) ↔ Lets source dest p
  Lets-iff source dest p =
      &&_iff_of (Selects-iff p.pod_selector dest)
        (any_iff _ (Admits source) (Admits-iff source) p.ingress)

-- Traffic is allowed exactly when some policy selects the destination and has a rule that opens the
-- port and names the source: traffic that no policy lets through is denied.
pub allowed_iff :
    (equal_fold : String → String → Bool) (policies : List Policy) (source dest : Assoc String)
    (protocol : String) (port : ℤ)
    → (allowed equal_fold policies source dest protocol port ≡ true)
      ↔ Has (Lets equal_fold protocol port source dest) policies
unfolding allowed
allowed_iff equal_fold policies source dest protocol port =
    any_iff _ (Lets equal_fold protocol port source dest)
      (Lets-iff equal_fold protocol port source dest) policies
