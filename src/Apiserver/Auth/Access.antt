-- ===== src/Apiserver/Auth/Access.antt =====
-- What the default bindings let an identity do, and when a handler runs at all.
use nimbuscore.Prelude.{
  String, ◌≡◌, ◌≢◌, refl, ◌↔◌, ◌⊎◌, inl, inr, Bool, true, false, ◌&&◌, List, [], ◌∷◌, Option, none,
  some, lookup, any, ◌∙◌, has_prefix, diverge, has_prefix-diverge, arith, Bool-cases, ◌==◌,
}
use nimbuscore.Rbac.{Authorizer, role_allows, allow}
use nimbuscore.Apiserver.Methods.{
  ResourceVerb, method_resource_verb, node_role, default_rbac_bindings,
}
use nimbuscore.Apiserver.Auth.{
  SpiffeId, Peer, AuthCode, handled, refused, needs_no_identity, peer_spiffe_id, authorize,
  identified, auth_interceptor,
}

-- All that a node may ask for.
abbrev pub node_permissions : List (String × String)
node_permissions =
    ("nodes", "create")
    ∷ ("nodes", "update")
    ∷ ("pods", "list")
    ∷ ("pods", "update")
    ∷ ("services", "list")
    ∷ []

abbrev pub is_pair : String → String → String × String → Bool
is_pair resource verb (r, v) = r == resource && v == verb

node_only :
    (path resource verb : String)
    → has_prefix path "/node/" ≡ true
    → allow default_rbac_bindings path resource verb ≡ role_allows resource verb node_role
unfolding allow default_rbac_bindings diverge
node_only path resource verb h = ground (
  arith,
  has_prefix-diverge "/node/" "/client/" path refl h,
  has_prefix-diverge "/node/" "/control-plane/" path refl h,
)

-- Under the default bindings an identity below /node/ may do what the list of node permissions
-- names, and nothing else: no secrets, no deployments, no deletion.
pub node_least_privilege :
    (path resource verb : String)
    → has_prefix path "/node/" ≡ true
    → allow default_rbac_bindings path resource verb ≡ any (is_pair resource verb) node_permissions
unfolding role_allows node_role
node_least_privilege path resource verb h = node_only path resource verb h ∙ ground arith

-- An identity below /client/ administers no cluster and creates or changes no node.
pub client_never_admin :
    (path verb : String)
    → has_prefix path "/client/" ≡ true
    → (allow default_rbac_bindings path "admin" verb ≡ false)
      × (allow default_rbac_bindings path "nodes" "create" ≡ false)
      × (allow default_rbac_bindings path "nodes" "update" ≡ false)
      × (allow default_rbac_bindings path "nodes" "delete" ≡ false)
unfolding allow default_rbac_bindings diverge role_allows
client_never_admin path verb h =
    let n = has_prefix-diverge "/client/" "/node/" path refl h in
    let c = has_prefix-diverge "/client/" "/control-plane/" path refl h in
    (ground arith, ground arith, ground arith, ground arith)

refused_not_handled : {a : AuthCode} → refused a ≢ handled
refused_not_handled h = cc

-- What the checks behind the table ask of an identity.
abbrev pub IsAccepted :
    (String → Option SpiffeId) → (SpiffeId → Bool) → Authorizer → String → Peer → Type 0
IsAccepted from_uri expect authz method peer =
    (id : SpiffeId) × (rv : ResourceVerb) × (peer_spiffe_id from_uri peer ≡ some id)
    × (expect id ≡ true)
    × (lookup method method_resource_verb ≡ some rv)
    × (allow authz id.path rv.resource rv.verb ≡ true)

module _ (from_uri : String → Option SpiffeId) (expect : SpiffeId → Bool) (authz : Authorizer)
    (method : String) where
  authorize-handled :
      (id : SpiffeId) (o : Option ResourceVerb)
      → authorize from_uri expect authz method id o ≡ handled
      → (rv : ResourceVerb) × (o ≡ some rv) × (allow authz id.path rv.resource rv.verb ≡ true)
  unfolding authorize
  authorize-handled id none h = absurd (refused_not_handled h)
  authorize-handled id (some rv) h = elim (Bool-cases (allow authz id.path rv.resource rv.verb)) [
    | inl e ↦ (rv, refl, e)
    | inr e ↦ absurd (refused_not_handled (rw e at h))
  ]

  identified-handled :
      (o : Option SpiffeId)
      → identified from_uri expect authz method o ≡ handled
      → (id : SpiffeId) × (rv : ResourceVerb) × (o ≡ some id)
        × (expect id ≡ true)
        × (lookup method method_resource_verb ≡ some rv)
        × (allow authz id.path rv.resource rv.verb ≡ true)
  unfolding identified
  identified-handled none h = absurd (refused_not_handled h)
  identified-handled (some id) h = elim (Bool-cases (expect id)) [
    | inl e ↦
        let (rv, a, b) = authorize-handled id (lookup method method_resource_verb) (rw e at h) in
        (id, rv, refl, e, a, b)
    | inr e ↦ absurd (refused_not_handled (rw e at h))
  ]

-- The handler runs exactly for a method that needs no identity, or for a peer whose certificate
-- gives an identity of an expected trust domain that is allowed the resource and the verb of the
-- method.
pub handled_iff :
    (from_uri : String → Option SpiffeId) (expect : SpiffeId → Bool) (authz : Authorizer)
    (method : String) (peer : Peer)
    → (auth_interceptor from_uri expect authz method peer ≡ handled)
      ↔ ((needs_no_identity method ≡ true) ⊎ IsAccepted from_uri expect authz method peer)
unfolding auth_interceptor
handled_iff from_uri expect authz method peer = (
  λ h. elim (Bool-cases (needs_no_identity method)) [
    | inl e ↦ inl e
    | inr e ↦ inr (identified-handled from_uri expect authz method _ (rw e at h))
  ],
  elim [ inl e ↦ ground arith | inr (id, rv, a, b, c, e) ↦ ground arith ],
)
