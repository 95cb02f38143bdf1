-- ===== src/Federation/Tests.antt =====
-- Two clusters on concrete requests.
use nimbuscore.Prelude.{ℕ, String, [], ◌∷◌, lookup, ◌≡◌, refl, arith}
use nimbuscore.Cluster.{Result, ok}
use nimbuscore.Federation.{FederationService, register_cluster, unregister_cluster}
use nimbuscore.Federation.Laws.{IsConsistent, register_cluster-IsConsistent}

abbrev dial : String → String → String → Result ℕ
dial name api_addr join_token = ok 2

abbrev east : FederationService
east = record {
  registry = ("east", 1) ∷ [];
  remote_clusters = ("east", record { name = "east"; api_addr = "10.0.0.1:443" }) ∷ [];
  conns = ("east", 1) ∷ [];
  closed = [];
}

east-IsConsistent : IsConsistent east
unfolding lookup
east-IsConsistent = record { same_conn = λ name. refl; listed = λ name. ground arith }

register_cluster-IsConsistent_example :
    IsConsistent (register_cluster dial "west" "10.0.0.2:443" "token" east).1
    × IsConsistent (unregister_cluster "east" east)
register_cluster-IsConsistent_example =
    register_cluster-IsConsistent dial "west" "10.0.0.2:443" "token" "east" east east-IsConsistent

-- Joining a cluster again closes the connection that it had.
joined_again : (register_cluster dial "east" "10.0.0.2:443" "token" east).1.closed ≡ 1 ∷ []
unfolding register_cluster lookup
joined_again = refl
