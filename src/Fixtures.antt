-- ===== src/Fixtures.antt =====
-- A small cluster, for the tests: one node, one deployment, one service.
use nimbuscore.Prelude.{String, ℤ, pos, false, true, [], ◌∷◌, refl}
use nimbuscore.Api.{
  ObjectMeta, Pod, Node, Deployment, Service, zero_meta, zero_pod_spec, zero_pod_status,
  zero_container, zero_node_status, zero_resources, phase_running,
}
use nimbuscore.Cluster.{Cluster}
use nimbuscore.Cluster.Reads.{IsHealthy}

abbrev pub named : String → String → ObjectMeta
named namespace name = record zero_meta { name = name; namespace = namespace }

abbrev pub owned_by : String → ObjectMeta → ObjectMeta
owned_by owner m = record m { labels = ("nimbuscore.io/owner-deployment", owner) ∷ [] }

-- A pod of namespace a, on a node or on none.
abbrev pub pod_on : String → String → Pod
pod_on name node_name = record {
  metadata = owned_by "web" (named "a" name);
  spec = record zero_pod_spec { containers = zero_container ∷ []; node_name = node_name };
  status = record zero_pod_status { phase = phase_running };
}

abbrev pub web : ℤ → Deployment
web n = record {
  metadata = named "a" "web";
  spec = record {
    replicas = n;
    selector = [];
    template = record zero_pod_spec { containers = zero_container ∷ [] };
    min_replicas = pos 0;
    max_replicas = pos 0;
  };
  status = record { replicas = pos 0; ready_replicas = pos 0 };
}

abbrev pub worker : Node
worker = record {
  metadata = named "" "n1";
  unschedulable = false;
  status = record zero_node_status {
    ready = true;
    allocatable = record zero_resources { cpu_millis = pos 1000; memory_bytes = pos 1000 };
  };
}

abbrev pub shop : ℤ → Service
shop port = record {
  metadata = named "a" "shop";
  spec = record { selector = []; port = pos 80; target_port = pos 8080; node_port = port };
  endpoints = [];
}

abbrev pub one_pod : Cluster
one_pod = record {
  pods = ("/registry/pods/a/web-0", pod_on "web-0" "n1") ∷ [];
  nodes = ("/registry/nodes/n1", worker) ∷ [];
  deployments = ("/registry/deployments/a/web", web (pos 2)) ∷ [];
  volumes = [];
  services = [];
  namespaces = [];
  secrets = [];
  network_policies = [];
  policies = [];
  images = [];
  operations = 0;
  fails = λ n. false;
}

pub one_pod-IsHealthy : IsHealthy one_pod
one_pod-IsHealthy = record { up = λ n. refl }
