-- ===== src/Apiserver/NetworkPolicies.antt =====
-- internal/apiserver/networkpolicy_service.go
use nimbuscore.Prelude.{String, List, ◌==◌, if◌then◌else◌}
use nimbuscore.Api.{NetworkPolicy}
use nimbuscore.Cluster.{M, pure, raise, ◌>>◌, network_policies, get, put, delete, list}
use nimbuscore.Apiserver.Codes.{answering, invalid_argument, internal, not_there}

-- CreateNetworkPolicy
unfoldable pub create_network_policy : NetworkPolicy → M NetworkPolicy
create_network_policy x =
    if x.metadata.name == ""
    then raise invalid_argument
    else (answering internal (put network_policies x.metadata.namespace x.metadata.name x)
        >> pure x)

-- GetNetworkPolicy
unfoldable pub get_network_policy : String → String → M NetworkPolicy
get_network_policy namespace name = answering not_there (get network_policies namespace name)

-- ListNetworkPolicies
unfoldable pub list_network_policies : String → M (List NetworkPolicy)
list_network_policies namespace = answering internal (list network_policies namespace)

-- DeleteNetworkPolicy
unfoldable pub delete_network_policy : String → String → M (Unit {0})
delete_network_policy namespace name = answering internal (delete network_policies namespace name)
