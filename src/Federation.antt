-- ===== src/Federation.antt =====
-- internal/federation/registry.go and internal/apiserver/federation_service.go: the clusters that this
-- one is joined with. Enrolling with a remote cluster and dialing it are a parameter that gives a new
-- connection or a status code; a call over a connection gives pods or an error text. A handler is one
-- step: others do not run between its changes of the service and of the registry.
pub mod Laws
mod Tests
use nimbuscore.Prelude.{
  ℕ, String, Bool, true, false, ◌||◌, List, [], ◌∷◌, map, Option, none, some, Assoc, lookup, insert,
  remove, ◌==◌, if◌then◌else◌,
}
use nimbuscore.Api.{Pod}
use nimbuscore.Cluster.{Error, Result, ok, err}
use nimbuscore.Apiserver.Codes.{invalid_argument}

-- A connection is known by its number.
abbrev pub Registry : Type 0
Registry = Assoc ℕ

-- Register, Unregister and Clusters
unfoldable pub register : String → ℕ → Registry → Registry
register name conn r = insert name conn r

unfoldable pub unregister : String → Registry → Registry
unregister name r = remove name r

unfoldable pub clusters : Registry → List String
clusters r = map (λ e. e.0) r

pub data Listed : Type 0 where
  items : List Pod → Listed
  failed : String → Listed

pub record ClusterPods : Type 0 where
  pub cluster : String
  pub listed : Listed

-- ListPodsAll, where `list_pods` is a call over a connection. The calls run at the same time, each
-- writing to its own place of the result.
unfoldable pub list_pods_all : (ℕ → String → Listed) → String → Registry → List ClusterPods
list_pods_all list_pods namespace r =
    map (λ e. record { cluster = e.0; listed = list_pods e.1 namespace }) r

pub record RemoteCluster : Type 0 where
  pub name : String
  pub api_addr : String

pub record FederationService : Type 0 where
  pub registry : Registry
  pub remote_clusters : Assoc RemoteCluster
  pub conns : Assoc ℕ
  pub closed : List ℕ

abbrev pub closing : Option ℕ → List ℕ → List ℕ
closing none l = l
closing (some conn) l = conn ∷ l

abbrev pub joined :
    String → String → Result ℕ → FederationService → Result RemoteCluster × FederationService
joined name api_addr (err e) svc = (err e, svc)
joined name api_addr (ok conn) svc =
    let rec : RemoteCluster = record { name = name; api_addr = api_addr } in
    (
      ok rec,
      record {
        registry = register name conn svc.registry;
        remote_clusters = insert name rec svc.remote_clusters;
        conns = insert name conn svc.conns;
        closed = closing (lookup name svc.conns) svc.closed;
      },
    )

-- RegisterCluster
unfoldable pub register_cluster :
    (String → String → String → Result ℕ)
    → String
    → String
    → String
    → FederationService
    → Result RemoteCluster × FederationService
unfolding register
register_cluster dial name api_addr join_token svc =
    if (name == "" || api_addr == "") || join_token == ""
    then (err invalid_argument, svc)
    else joined name api_addr (dial name api_addr join_token) svc

-- UnregisterCluster
unfoldable pub unregister_cluster : String → FederationService → FederationService
unfolding unregister
unregister_cluster name svc = record {
  registry = unregister name svc.registry;
  remote_clusters = remove name svc.remote_clusters;
  conns = remove name svc.conns;
  closed = closing (lookup name svc.conns) svc.closed;
}

-- ListClusters
unfoldable pub list_clusters : FederationService → List RemoteCluster
list_clusters svc = map (λ e. e.1) svc.remote_clusters

-- ListFederatedPods
unfoldable pub list_federated_pods :
    (ℕ → String → Listed) → String → FederationService → List ClusterPods
unfolding list_pods_all
list_federated_pods list_pods namespace svc = list_pods_all list_pods namespace svc.registry
