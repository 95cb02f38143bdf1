-- ===== src/Dashboard/Metrics.antt =====
-- `handleMetrics` and `handleCICD` of internal/dashboard/dashboard.go: sums over the pods and the list
-- of the deployments with their images. Sums of int64 wrap.
use Prim.Native.String.{◌++◌}
use nimbuscore.Prelude.{
  ℤ, pos, add64, String, Bool, List, [], ◌∷◌, map, Option, none, some, Assoc, lookup_or, insert,
  ◌==◌, if◌then◌else◌,
}
use nimbuscore.Api.{Pod, Node, Container, BuildSource, Deployment}
use nimbuscore.Cluster.{nodes, pods, list}
use nimbuscore.Apiserver.Deployments.{list_deployments}
use nimbuscore.Dashboard.Handlers.{Handler, send, after}

pub record Usage : Type 0 where
  pub cpu_requested : ℤ
  pub mem_requested : ℤ
  pub mem_used : ℤ

abbrev pub no_usage : Usage
no_usage = record { cpu_requested = pos 0; mem_requested = pos 0; mem_used = pos 0 }

unfoldable pub add_containers : Usage → List Container → Usage
add_containers u [] = u
add_containers u (c ∷ cs) =
    add_containers
      (record u {
        cpu_requested = add64 u.cpu_requested c.resources.requests.cpu_millis;
        mem_requested = add64 u.mem_requested c.resources.requests.memory_bytes;
      })
      cs

abbrev pub with_used : ℤ → Usage → Usage
with_used bytes u = record u { mem_used = add64 u.mem_used bytes }

abbrev pub usage_of : Usage → Pod → Usage
usage_of u p = with_used p.status.memory_usage_bytes (add_containers u p.spec.containers)

-- The loop over the pods. Pods on no node are passed over.
unfoldable pub usage_by_node : Assoc Usage → List Pod → Assoc Usage
unfolding add_containers
usage_by_node m [] = m
usage_by_node m (p ∷ ps) =
    usage_by_node
      (if p.spec.node_name == ""
        then m
        else insert p.spec.node_name (usage_of (lookup_or no_usage p.spec.node_name m) p) m)
      ps

pub record NodeMetrics : Type 0 where
  pub name : String
  pub ready : Bool
  pub cpu_allocatable_millis : ℤ
  pub cpu_requested_millis : ℤ
  pub memory_allocatable_bytes : ℤ
  pub memory_requested_bytes : ℤ
  pub memory_used_bytes : ℤ

abbrev pub node_metrics : Assoc Usage → Node → NodeMetrics
node_metrics m n =
    let u = lookup_or no_usage n.metadata.name m in
    record {
      name = n.metadata.name;
      ready = n.status.ready;
      cpu_allocatable_millis = n.status.allocatable.cpu_millis;
      cpu_requested_millis = u.cpu_requested;
      memory_allocatable_bytes = n.status.allocatable.memory_bytes;
      memory_requested_bytes = u.mem_requested;
      memory_used_bytes = u.mem_used;
    }

-- A sum over the nodes.
unfoldable pub total : (NodeMetrics → ℤ) → ℤ → List NodeMetrics → ℤ
total f n [] = n
total f n (m ∷ ms) = total f (add64 n (f m)) ms

pub record ClusterMetrics : Type 0 where
  pub nodes : List NodeMetrics
  pub cpu_allocatable_millis : ℤ
  pub cpu_requested_millis : ℤ
  pub memory_allocatable_bytes : ℤ
  pub memory_requested_bytes : ℤ
  pub memory_used_bytes : ℤ

abbrev pub cluster_metrics : List NodeMetrics → ClusterMetrics
cluster_metrics ms = record {
  nodes = ms;
  cpu_allocatable_millis = total (λ m. m.cpu_allocatable_millis) (pos 0) ms;
  cpu_requested_millis = total (λ m. m.cpu_requested_millis) (pos 0) ms;
  memory_allocatable_bytes = total (λ m. m.memory_allocatable_bytes) (pos 0) ms;
  memory_requested_bytes = total (λ m. m.memory_requested_bytes) (pos 0) ms;
  memory_used_bytes = total (λ m. m.memory_used_bytes) (pos 0) ms;
}

-- handleMetrics
unfoldable pub handle_metrics : Handler ClusterMetrics
unfolding usage_by_node total
handle_metrics = after 500 (list nodes "") λ ns.
    after 500 (list pods "")
      λ ps. send (cluster_metrics (map (node_metrics (usage_by_node [] ps)) ns))

pub record CicdDeployment : Type 0 where
  pub namespace : String
  pub name : String
  pub image : String
  pub replicas : ℤ
  pub ready_replicas : ℤ
  pub source : String

abbrev pub image_or_build : String → Option BuildSource → String
image_or_build image none = image
image_or_build image (some build) = "git: " ++ build.repo_url

abbrev pub shown_image : List Container → String
shown_image [] = ""
shown_image (c ∷ cs) = image_or_build c.image c.build_source

abbrev pub source_of : Deployment → String
source_of d =
    if lookup_or "" "nimbuscore.io/managed-by" d.metadata.labels == "gitops"
    then "gitops"
    else "manual"

abbrev pub cicd_deployment : Deployment → CicdDeployment
cicd_deployment d = record {
  namespace = d.metadata.namespace;
  name = d.metadata.name;
  image = shown_image d.spec.template.containers;
  replicas = d.spec.replicas;
  ready_replicas = d.status.ready_replicas;
  source = source_of d;
}

-- The deployments of handleCICD.
unfoldable pub handle_cicd : Handler (List CicdDeployment)
handle_cicd = after 500 (list_deployments "") λ items. send (map cicd_deployment items)
