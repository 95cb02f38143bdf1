-- ===== src/Apiserver/Identity/Laws.antt =====
-- To whom certificates and the data encryption key are given.
use nimbuscore.Prelude.{
  ℕ, String, List, [], Option, some, ◌≡◌, ◌≢◌, arith, ◌==◌, eq_iff, Bool-cases, Option-cases, inl,
  inr, any, has_prefix, ap, ◌∙◌,
}
use Prim.Native.String.{◌++◌}
use nimbuscore.Cluster.{ok}
use nimbuscore.Cluster.Keys.{has_prefix-append}
use nimbuscore.Rbac.{allow}
use nimbuscore.Apiserver.Auth.{SpiffeId}
use nimbuscore.Apiserver.Auth.Access.{node_least_privilege, is_pair, node_permissions}
use nimbuscore.Apiserver.Methods.{default_rbac_bindings}
use nimbuscore.Apiserver.Identity.{
  role_node, SvidRequest, SvidResponse, id_path, key_for, issued_with, request_svid,
}

-- `public_key`, `from_path` and `issue` are the libraries', as in the service.
module _ {Key : Type 0} {Certificate : Type 0} (public_key : List ℕ → Option Key)
    (from_path : String → Option SpiffeId) (issue : Key → SpiffeId → Option Certificate)
    (join_token : String) (trust_bundle data_encryption_key : List ℕ) where
  -- The steps that a request passes before it is answered.
  abbrev pub IsEntitled : SvidRequest → SvidResponse Certificate → Type 0
  IsEntitled req resp =
      (key : Key) × (path : String) × (id : SpiffeId) × (req.join_token ≡ join_token)
      × (req.node_name ≢ "")
      × (public_key req.csr ≡ some key)
      × (id_path req.role req.node_name ≡ some path)
      × (from_path path ≡ some id)
      × (issue key id ≡ some resp.certificate)
      × (resp.trust_bundle ≡ trust_bundle)
      × (resp.data_encryption_key ≡ key_for req.role data_encryption_key)

  issued_with_inv :
      (req : SvidRequest) {resp : SvidResponse Certificate}
      → req.join_token ≡ join_token
      → req.node_name ≢ ""
      → issued_with public_key from_path issue join_token trust_bundle data_encryption_key req
          (public_key req.csr)
        ≡ ok resp
      → IsEntitled req resp
  issued_with_inv req {resp = resp} t n h = elim (Option-cases (public_key req.csr)) [
    | inl e ↦ ground arith
    | inr (key, e) ↦ elim (Option-cases (id_path req.role req.node_name)) [
      | inl f ↦ ground arith
      | inr (path, f) ↦ elim (Option-cases (from_path path)) [
        | inl g ↦ ground arith
        | inr (id, g) ↦ elim (Option-cases (issue key id)) [
          | inl k ↦ ground arith
          | inr (cert, k) ↦ (key, path, id, t, n, e, f, g, ground arith, ground arith, ground arith)
        ]
      ]
    ]
  ]

  -- A request that is answered has the join token, a name, a role that is served and a request signed
  -- by its ECDSA key; its certificate is for that key and for the identity below the role's path; and
  -- it carries the data encryption key exactly as its role asks, for a control plane only.
  pub request_svid_inv :
      (req : SvidRequest) {resp : SvidResponse Certificate}
      → request_svid public_key from_path issue join_token trust_bundle data_encryption_key req
        ≡ ok resp
      → IsEntitled req resp
  unfolding request_svid
  request_svid_inv req h = elim (Bool-cases (req.join_token == join_token)) [
    | inl e ↦ elim (Bool-cases (req.node_name == "")) [
      | inl f ↦ ground arith
      | inr f ↦
          issued_with_inv req ((eq_iff req.join_token join_token).0 e)
            (λ n. ground (arith, (eq_iff req.node_name "").1 n)) (ground arith)
    ]
    | inr e ↦ ground arith
  ]

  -- Where an identity keeps the path that it is built from, a certificate for the node role is for an
  -- identity that the default bindings give the permissions of a node, no other ones, and comes
  -- without the data encryption key.
  pub request_svid-node :
      (req : SvidRequest) {resp : SvidResponse Certificate}
      → ((path : String) (id : SpiffeId) → from_path path ≡ some id → id.path ≡ path)
      → req.role ≡ role_node
      → request_svid public_key from_path issue join_token trust_bundle data_encryption_key req
        ≡ ok resp
      → (key : Key) × (id : SpiffeId) × (issue key id ≡ some resp.certificate)
        × (resp.data_encryption_key ≡ [])
        × ((resource verb : String)
            → allow default_rbac_bindings id.path resource verb
              ≡ any (is_pair resource verb) node_permissions)
  request_svid-node req {resp = resp} keeps is_node h =
      let (key, path, id, t, n, k, at, g, cert, bundle, data_key) =
        request_svid_inv req {resp = resp} h in
      let path_is : path ≡ "/node/" ++ req.node_name = ground arith in
      (
        key,
        id,
        cert,
        ground arith,
        λ resource verb. node_least_privilege id.path resource verb (
            ap (λ (p : String). has_prefix p "/node/") (keeps path id g ∙ path_is)
            ∙ has_prefix-append "/node/" req.node_name),
      )
