-- ===== src/Apiserver/Identity.antt =====
-- internal/apiserver/identity_service.go: certificates for callers that know the join token. Parsing
-- a request, building an identity and signing are the libraries' (crypto/x509, go-spiffe).
pub mod Laws
use Prim.Native.String.{◌++◌}
use nimbuscore.Prelude.{
  ℕ, String, Bool, true, false, not, List, [], Option, none, some, ◌==◌, if◌then◌else◌,
}
use nimbuscore.Cluster.{Error, Result, ok, err}
use nimbuscore.Apiserver.Codes.{invalid_argument, internal, permission_refused}
use nimbuscore.Apiserver.Auth.{SpiffeId}

pub data SvidRole : Type 0 where
  role_unspecified role_node role_control_plane role_client : SvidRole

pub record SvidRequest : Type 0 where
  pub join_token : String
  pub node_name : String
  pub csr : List ℕ
  pub role : SvidRole

pub record SvidResponse (Certificate : Type 0) : Type 0 where
  pub certificate : Certificate
  pub trust_bundle : List ℕ
  pub data_encryption_key : List ℕ

-- The path of the identity that a role asks for.
abbrev pub id_path : SvidRole → String → Option String
id_path role_node name = some ("/node/" ++ name)
id_path role_control_plane name = some ("/control-plane/" ++ name)
id_path role_client name = some ("/client/" ++ name)
id_path role_unspecified name = none

abbrev pub key_for : SvidRole → List ℕ → List ℕ
key_for role_control_plane key = key
key_for role_node key = []
key_for role_client key = []
key_for role_unspecified key = []

-- `public_key` reads the ECDSA key of a request that parses and is signed by that key. `from_path`
-- builds an identity of the trust domain. `issue` signs a certificate.
module _ {Key : Type 0} {Certificate : Type 0} (public_key : List ℕ → Option Key)
    (from_path : String → Option SpiffeId) (issue : Key → SpiffeId → Option Certificate)
    (join_token : String) (trust_bundle data_encryption_key : List ℕ) where
  abbrev pub issued : SvidRole → Option Certificate → Result (SvidResponse Certificate)
  issued role none = err internal
  issued role (some cert) = ok (record {
    certificate = cert;
    trust_bundle = trust_bundle;
    data_encryption_key = key_for role data_encryption_key;
  })

  abbrev pub issued_for : SvidRole → Key → Option SpiffeId → Result (SvidResponse Certificate)
  issued_for role key none = err internal
  issued_for role key (some id) = issued role (issue key id)

  abbrev pub issued_at : SvidRole → Key → Option String → Result (SvidResponse Certificate)
  issued_at role key none = err invalid_argument
  issued_at role key (some path) = issued_for role key (from_path path)

  abbrev pub issued_with : SvidRequest → Option Key → Result (SvidResponse Certificate)
  issued_with req none = err invalid_argument
  issued_with req (some key) = issued_at req.role key (id_path req.role req.node_name)

  -- RequestSVID
  unfoldable pub request_svid : SvidRequest → Result (SvidResponse Certificate)
  request_svid req =
      if not (req.join_token == join_token)
      then err permission_refused
      else if req.node_name == ""
      then err invalid_argument
      else issued_with req (public_key req.csr)
