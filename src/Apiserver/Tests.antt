-- ===== src/Apiserver/Tests.antt =====
-- The handlers on small inputs.
use Prim.Native.String.{◌++◌}
use nimbuscore.Prelude.{
  String, ◌≡◌, ◌≢◌, ◌↔◌, ◌⊎◌, refl, pos, true, [], ◌∷◌, Option, some, any, ◌==◌, has_prefix, strip,
  lookup, eq_iff, arith,
}
use nimbuscore.Api.{PodStatus, zero_pod_status}
use nimbuscore.Rbac.{allow}
use nimbuscore.Apiserver.Methods.{default_rbac_bindings}
use nimbuscore.Apiserver.Auth.{SpiffeId, Peer, tls, handled, auth_interceptor, needs_no_identity}
use nimbuscore.Apiserver.Auth.Access.{
  IsAccepted, is_pair, node_permissions, handled_iff, node_least_privilege,
}
use nimbuscore.Apiserver.Services.{create_service}
use nimbuscore.Apiserver.Services.Allotted.{IsAllotted}
use nimbuscore.Apiserver.Services.Ports.{create_service-IsAllotted}
use nimbuscore.Apiserver.Pods.{update_pod_status}
use nimbuscore.Apiserver.Pods.Isolation.{update_pod_status-isolated}
use nimbuscore.Fixtures.{shop, pod_on, one_pod}

abbrev spiffe : String → Option SpiffeId
spiffe uri = some (record { trust_domain = "nimbus"; path = "/node/n1" })

abbrev peer : Peer
peer = tls (((("spiffe://nimbus/node/n1" ∷ []) ∷ []) ∷ []))

handled_iff_example :
    (auth_interceptor spiffe
        (λ id. id.trust_domain == "nimbus")
        default_rbac_bindings
        "/nimbuscore.v1.PodService/ListPods"
        peer
      ≡ handled)
    ↔ ((needs_no_identity "/nimbuscore.v1.PodService/ListPods" ≡ true)
        ⊎ IsAccepted spiffe
            (λ id. id.trust_domain == "nimbus")
            default_rbac_bindings
            "/nimbuscore.v1.PodService/ListPods"
            peer)
handled_iff_example =
    handled_iff spiffe (λ id. id.trust_domain == "nimbus") default_rbac_bindings
      "/nimbuscore.v1.PodService/ListPods" peer

below_node : has_prefix "/node/n1" "/node/" ≡ true
unfolding has_prefix strip
below_node = refl

below_client : has_prefix "/client/c" "/client/" ≡ true
unfolding has_prefix strip
below_client = refl

node_least_privilege_example :
    allow default_rbac_bindings "/node/n1" "secrets" "get"
    ≡ any (is_pair "secrets" "get") node_permissions
node_least_privilege_example = node_least_privilege "/node/n1" "secrets" "get" below_node

no_services-IsAllotted : IsAllotted one_pod.services
unfolding lookup
no_services-IsAllotted = record { keyed = λ k x l. absurd cc; apart = λ k j x y l m e z. absurd cc }

create_service-IsAllotted_example : IsAllotted (create_service (shop (pos 0)) one_pod).1.services
create_service-IsAllotted_example =
    create_service-IsAllotted (shop (pos 0)) one_pod no_services-IsAllotted

abbrev failed_status : PodStatus
failed_status = record zero_pod_status { message = "down" }

stored_web : lookup "/registry/pods/a/web-0" one_pod.pods ≡ some (pod_on "web-0" "n1")
unfolding lookup
stored_web = refl

n1_not_empty : ◌≢◌ {A = String} "n1" ""
n1_not_empty h = ground (arith, (eq_iff "n1" "").1 h)

n1_not_n2 : ◌≢◌ {A = String} "n1" "n2"
n1_not_n2 h = ground (arith, (eq_iff "n1" "n2").1 h)

update_pod_status-isolated_example :
    lookup "/registry/pods/a/web-0"
      (update_pod_status
        (some (record { trust_domain = "nimbus"; path = "/node/" ++ "n2" }))
        "a"
        "web-0"
        failed_status
        one_pod).1.pods
    ≡ some (pod_on "web-0" "n1")
update_pod_status-isolated_example =
    update_pod_status-isolated "nimbus" "n2" "a" "web-0" failed_status one_pod
      "/registry/pods/a/web-0" (pod_on "web-0" "n1") stored_web (n1_not_empty, n1_not_n2)
