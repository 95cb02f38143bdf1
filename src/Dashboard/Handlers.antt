-- ===== src/Dashboard/Handlers.antt =====
-- The handlers of internal/dashboard/dashboard.go, on the objects of the cluster. A response is a value
-- that is sent, or a status code; a body comes decoded, or as `none` if it cannot be.
use nimbuscore.Prelude.{
  ℕ, ℤ, pos, leb_ℤ, String, List, Option, none, some, Assoc, lookup_or, ◌==◌, if◌then◌else◌,
}
use nimbuscore.Api.{Pod, Node, Namespace, Service, Deployment, zero_meta}
use nimbuscore.Cluster.{Cluster, M, Result, ok, err, pods, nodes, get, delete, list}
use nimbuscore.Apiserver.Namespaces.{create_namespace, list_namespaces, delete_namespace}
use nimbuscore.Apiserver.Services.{list_services, delete_service}
use nimbuscore.Apiserver.Deployments.{delete_deployment}
use nimbuscore.Apiserver.Volumes.{get_volume}

pub data Http {ℓ} (A : Type ℓ) : Type ℓ where
  sent : A → Http A
  code : ℕ → Http A

abbrev pub Handler : Type 0 → Type 0
Handler A = Cluster → Http A × Cluster

abbrev pub send : {A : Type 0} → A → Handler A
send a s = (sent a, s)

abbrev pub refuse : {A : Type 0} → ℕ → Handler A
refuse n s = (code n, s)

abbrev pub went : {A B : Type 0} → ℕ → Result A → (A → Handler B) → Handler B
went n (ok a) f s = f a s
went n (err e) f s = (code n, s)

-- The action, and what follows it. An error is answered with the code.
abbrev pub after : {A B : Type 0} → ℕ → M A → (A → Handler B) → Handler B
after n m f s = let (r, t) = m s in went n r f t

-- A request: its method and the parameters of its query.
pub record Request : Type 0 where
  pub method : String
  pub query : Assoc String

abbrev pub parameter : Request → String → String
parameter r k = lookup_or "" k r.query

abbrev pub or_default : String → String
or_default s = if s == "" then "default" else s

abbrev pub namespace_of : Request → String
namespace_of r = or_default (parameter r "namespace")

-- The handlers that need a name.
abbrev pub named : {A : Type 0} → String → Handler A → Handler A
named name h = if name == "" then refuse 400 else h

-- What the handlers send.
pub data Sent : Type 0 where
  nothing : Sent
  node_list : List Node → Sent
  pod_list : List Pod → Sent
  namespace_list : List Namespace → Sent
  one_namespace : Namespace → Sent
  service_list : List Service → Sent
  deployment_list : List Deployment → Sent
  one_deployment : Deployment → Sent

-- handleNodes
unfoldable pub handle_nodes : Handler Sent
handle_nodes = after 500 (list nodes "") λ items. send (node_list items)

-- handlePods. A deletion is answered with no content.
unfoldable pub handle_pods : Request → Handler Sent
handle_pods r =
    if r.method == "GET"
    then (after 500 (list pods "") λ items. send (pod_list items))
    else if r.method == "DELETE"
    then named (parameter r "name")
        (after 500 (delete pods (namespace_of r) (parameter r "name")) λ u. send nothing)
    else refuse 405

abbrev pub new_namespace : String → Namespace
new_namespace name = record { metadata = record zero_meta { name = name } }

abbrev pub post_namespace : Option String → Handler Sent
post_namespace none = refuse 400
post_namespace (some name) =
    named name
      (after 400 (create_namespace (new_namespace name)) λ created. send (one_namespace created))

-- handleNamespaces
unfoldable pub handle_namespaces : Request → Option String → Handler Sent
handle_namespaces r body =
    if r.method == "GET"
    then (after 500 list_namespaces λ items. send (namespace_list items))
    else if r.method == "POST"
    then post_namespace body
    else if r.method == "DELETE"
    then named (parameter r "name")
        (after 500 (delete_namespace (parameter r "name")) λ u. send nothing)
    else refuse 405

-- The address that proxyToAgent forwards a request to.
pub record Target : Type 0 where
  pub ip : String
  pub port : ℤ
  pub path : String

abbrev pub address_of : ℕ → Node → (String → Handler Target) → Handler Target
address_of n node f = if node.status.internal_ip == "" then refuse n else f node.status.internal_ip

-- resolveNodeIP, where every error is answered with 404
abbrev pub with_node_ip : String → (String → Handler Target) → Handler Target
with_node_ip node_name f = after 404 (get nodes "" node_name) λ node. address_of 404 node f

abbrev pub or_port : ℤ → ℤ → ℤ
or_port port default = if leb_ℤ port (pos 0) then default else port

abbrev pub on_node : String → (String → Handler Target) → Handler Target
on_node node_name f = if node_name == "" then refuse 404 else with_node_ip node_name f

-- handleLogs, up to the forwarding
unfoldable pub handle_logs : ℤ → Request → Handler Target
handle_logs agent_log_port r = named (parameter r "name") (
    after 404 (get pods (namespace_of r) (parameter r "name")) λ pod.
      on_node pod.spec.node_name
        λ ip. send (record { ip = ip; port = or_port agent_log_port (pos 10250); path = "/logs" }))

-- The operation that a request to handleFiles is forwarded as.
unfoldable pub file_operation : Request → Option String
file_operation r =
    if r.method == "GET"
    then some (if parameter r "op" == "read" then "/files/read" else "/files/list")
    else if r.method == "PUT"
    then some "/files/write"
    else if r.method == "DELETE"
    then some "/files/delete"
    else none

abbrev pub forwarded : ℤ → String → Option String → Handler Target
forwarded port ip none = refuse 405
forwarded port ip (some path) = send (record { ip = ip; port = port; path = path })

-- handleFiles, up to the forwarding
unfoldable pub handle_files : ℤ → Request → Handler Target
unfolding file_operation
handle_files agent_files_port r = named (parameter r "name") (
    after 404 (get_volume (namespace_of r) (parameter r "name")) λ vol.
      on_node vol.status.node_name
        λ ip. forwarded (or_port agent_files_port (pos 10251)) ip (file_operation r))

-- handleDeleteDeployment
unfoldable pub handle_delete_deployment : Request → Handler Sent
handle_delete_deployment r =
    named (parameter r "name")
      (after 500 (delete_deployment (namespace_of r) (parameter r "name")) λ u. send nothing)

-- handleServices
unfoldable pub handle_services : Request → Handler Sent
handle_services r =
    if r.method == "GET"
    then (after 500 (list_services "") λ items. send (service_list items))
    else if r.method == "DELETE"
    then named (parameter r "name")
        (after 500 (delete_service (namespace_of r) (parameter r "name")) λ u. send nothing)
    else refuse 405
