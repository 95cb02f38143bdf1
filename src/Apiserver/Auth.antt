-- ===== src/Apiserver/Auth.antt =====
-- internal/apiserver/auth.go: who calls, and whether the handler runs. Parsing a SPIFFE ID and
-- matching its trust domain are the library's (github.com/spiffe/go-spiffe), taken as parameters.
pub mod Access
use nimbuscore.Prelude.{
  String, Bool, true, false, List, [], ◌∷◌, Option, none, some, lookup, any, ◌==◌, if◌then◌else◌,
}
use nimbuscore.Rbac.{Authorizer, allow}
use nimbuscore.Apiserver.Methods.{ResourceVerb, method_resource_verb}

pub record SpiffeId : Type 0 where
  pub trust_domain : String
  pub path : String

-- What the connection shows of the peer: the URI names of the leaf of the first verified chain.
pub data Peer : Type 0 where
  unknown : Peer
  not_tls : Peer
  tls : List (List (List String)) → Peer

pub data AuthCode : Type 0 where
  unauthenticated permission_denied : AuthCode

pub data Verdict : Type 0 where
  handled : Verdict
  refused : AuthCode → Verdict

abbrev pub unauthenticated_methods : List String
unauthenticated_methods = "/nimbuscore.v1.IdentityService/RequestSVID" ∷ []

abbrev pub needs_no_identity : String → Bool
needs_no_identity method = any (λ m. m == method) unauthenticated_methods

module _ (from_uri : String → Option SpiffeId) where
  unfoldable pub peer_spiffe_id : Peer → Option SpiffeId
  peer_spiffe_id (tls (((uri ∷ []) ∷ certs) ∷ chains)) = from_uri uri
  peer_spiffe_id _ = none

  module _ (expect_trust_domain : SpiffeId → Bool) (authz : Authorizer) where
    -- The checks behind the identity.
    unfoldable pub authorize : String → SpiffeId → Option ResourceVerb → Verdict
    authorize method id none = refused permission_denied
    authorize method id (some rv) =
        if allow authz id.path rv.resource rv.verb then handled else refused permission_denied

    unfoldable pub identified : String → Option SpiffeId → Verdict
    unfolding authorize
    identified method none = refused unauthenticated
    identified method (some id) =
        if expect_trust_domain id
        then authorize method id (lookup method method_resource_verb)
        else refused permission_denied

    -- AuthInterceptor
    unfoldable pub auth_interceptor : String → Peer → Verdict
    unfolding identified
    auth_interceptor method peer =
        if needs_no_identity method then handled else identified method (peer_spiffe_id peer)
