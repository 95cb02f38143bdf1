-- ===== src/Apiserver/Services.antt =====
-- internal/apiserver/service_service.go: services, their node ports and their endpoints.
pub mod Allocation
pub mod Reading
pub mod Allotted
pub mod Ports
use nimbuscore.Prelude.{
  ℕ, zero, suc, String, ℤ, pos, eq_ℤ, Bool, true, false, not, ◌&&◌, List, [], ◌∷◌, Option, none,
  some, any, is_empty, ◌==◌, if◌then◌else◌,
}
use nimbuscore.Api.{Pod, Node, Service, ServiceEndpoint, is_running}
use nimbuscore.Cluster.{
  M, Result, ok, err, pure, raise, attempt, ◌>>=◌, ◌>>◌, services, pods, nodes, get, put, delete,
  list,
}
use nimbuscore.Netpolicy.{selector_matches}
use nimbuscore.Apiserver.Codes.{answering, invalid_argument, internal, already_exists, not_there}

abbrev pub node_port_range_min : ℕ
node_port_range_min = 30000

-- nodePortRangeMax - nodePortRangeMin + 1
abbrev pub node_port_count : ℕ
node_port_count = 2768

abbrev pub has_port : ℤ → Service → Bool
has_port port s = eq_ℤ s.spec.node_port port

-- The loop over the ports from `port` on, of which `left` are left. A port of 0 is never asked for,
-- so services without a node port take none.
unfoldable pub first_free : ℕ → ℕ → List Service → Option ℤ
first_free zero port all = none
first_free (suc left) port all =
    let rest = first_free left (suc port) all in
    if any (has_port (pos port)) all then rest else some (pos port)

abbrev pub free_or_fail : Option ℤ → M ℤ
free_or_fail (some port) = pure port
free_or_fail none = raise internal

-- allocateNodePort
unfoldable pub allocate_node_port : M ℤ
unfolding first_free
allocate_node_port = do
  all ← list services ""
  free_or_fail (first_free node_port_count node_port_range_min all)

abbrev pub is_named : String → String → Service → Bool
is_named namespace name s = s.metadata.namespace == namespace && s.metadata.name == name

-- nodePortInUse
unfoldable pub taken_by_other : ℤ → String → String → List Service → Bool
taken_by_other port namespace name all =
    any (λ s. has_port port s && not (is_named namespace name s)) all

unfoldable pub node_port_in_use : ℤ → String → String → M Bool
node_port_in_use port namespace name = do
  all ← list services ""
  pure (taken_by_other port namespace name all)

abbrev pub if_used : Service → Bool → M ℤ
if_used s used = if used then raise already_exists else pure s.spec.node_port

-- The node port that a new service gets.
unfoldable pub choose_port : Service → M ℤ
unfolding allocate_node_port node_port_in_use
choose_port s =
    if eq_ℤ s.spec.node_port (pos 0)
    then answering internal allocate_node_port
    else (answering internal
          (node_port_in_use s.spec.node_port s.metadata.namespace s.metadata.name)
        >>= if_used s)

abbrev pub is_backend : Service → Pod → Bool
is_backend s p =
    is_running p.status.phase
    && selector_matches s.spec.selector p.metadata.labels
    && not (p.spec.node_name == "")

-- A pod whose node is not found is left out, as is one whose node cannot be read.
abbrev pub with_endpoint : Service → Pod → Result Node → List ServiceEndpoint → List ServiceEndpoint
with_endpoint s p (err e) rest = rest
with_endpoint s p (ok node) rest =
    record {
      pod_name = p.metadata.name;
      node_ip = node.status.internal_ip;
      node_port = s.spec.node_port;
    }
    ∷ rest

-- The loop of `resolve`.
unfoldable pub endpoints_of : Service → List Pod → M (List ServiceEndpoint)
endpoints_of s [] = pure []
endpoints_of s (p ∷ ps) =
    let later = endpoints_of s ps in
    if is_backend s p
    then (do
      node ← attempt (get nodes "" p.spec.node_name)
      rest ← later
      pure (with_endpoint s p node rest))
    else later

-- resolve
unfoldable pub resolve : Service → M Service
unfolding endpoints_of
resolve s = if is_empty s.spec.selector then pure (record s { endpoints = [] }) else (do
  all_pods ← answering internal (list pods s.metadata.namespace)
  es ← endpoints_of s all_pods
  pure (record s { endpoints = es }))

abbrev pub with_port : Service → ℤ → Service
with_port s port = record s { spec = record s.spec { node_port = port } }

abbrev pub stored_with : Service → ℤ → M Service
stored_with s port =
    answering internal (put services s.metadata.namespace s.metadata.name (with_port s port))
    >> resolve (with_port s port)

-- CreateService
unfoldable pub create_service : Service → M Service
unfolding choose_port
create_service s =
    if s.metadata.name == "" then raise invalid_argument else (choose_port s >>= stored_with s)

-- GetService
unfoldable pub get_service : String → String → M Service
get_service namespace name = do s ← answering not_there (get services namespace name); resolve s

unfoldable pub resolve_each : List Service → M (List Service)
resolve_each [] = pure []
resolve_each (s ∷ ss) = do r ← resolve s; rs ← resolve_each ss; pure (r ∷ rs)

-- ListServices
unfoldable pub list_services : String → M (List Service)
list_services namespace = do
  items ← answering internal (list services namespace)
  resolve_each items

-- DeleteService
unfoldable pub delete_service : String → String → M (Unit {0})
delete_service namespace name = answering internal (delete services namespace name)
