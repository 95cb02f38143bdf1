-- ===== src/Dashboard/Request.antt =====
-- The request of `handleCreateDeployment` in internal/dashboard/dashboard.go, its checks, and the objects
-- that it asks for.
use Prim.Native.String
use nimbuscore.Prelude.{
  ℤ, pos, ltb_ℤ, leb_ℤ, String, Bool, ◌&&◌, ◌||◌, List, [], ◌∷◌, Option, none, some, Assoc, ◌==◌,
  if◌then◌else◌, is_empty,
}
use nimbuscore.Api.{
  Container, BuildSource, Deployment, Service, Volume, VolumeMount, ResourceRequirements, zero_meta,
  zero_container, zero_pod_spec, zero_resources, volume_unspecified,
}
use nimbuscore.Dashboard.Handlers.{or_default}

-- createDeploymentRequest
pub record CreateDeploymentRequest : Type 0 where
  pub name : String
  pub namespace : String
  pub image : String
  pub git_repo_url : String
  pub git_branch : String
  pub git_dockerfile : String
  pub git_context : String
  pub replicas : ℤ
  pub port : ℤ
  pub command : List String
  pub env : Assoc String
  pub cpu_millis : ℤ
  pub memory_bytes : ℤ
  pub add_persistent_storage : Bool
  pub mount_path : String
  pub links : List String

abbrev pub links_to_label : String
links_to_label = "nimbuscore.io/links-to"

-- strings.Join(l, ",")
unfoldable pub comma_joined : List String → String
comma_joined [] = ""
comma_joined (s ∷ []) = s
comma_joined (s ∷ t ∷ l) = String.◌++◌ s (String.◌++◌ "," (comma_joined (t ∷ l)))

-- The request with the defaults filled in.
abbrev pub with_defaults : CreateDeploymentRequest → CreateDeploymentRequest
with_defaults req = record req {
  namespace = or_default req.namespace;
  replicas = if leb_ℤ req.replicas (pos 0) then pos 1 else req.replicas;
}

abbrev pub build_of : CreateDeploymentRequest → Option BuildSource
build_of req =
    if req.git_repo_url == ""
    then none
    else some (record {
      repo_url = req.git_repo_url;
      branch = req.git_branch;
      dockerfile_path = req.git_dockerfile;
      context_path = req.git_context;
    })

abbrev pub resources_of : CreateDeploymentRequest → ResourceRequirements
resources_of req =
    if ltb_ℤ (pos 0) req.cpu_millis || ltb_ℤ (pos 0) req.memory_bytes
    then record {
      requests = record {
        cpu_millis = req.cpu_millis;
        memory_bytes = req.memory_bytes;
        accelerators = [];
      };
      limits = zero_resources;
    }
    else record { requests = zero_resources; limits = zero_resources }

abbrev pub container_of : CreateDeploymentRequest → Container
container_of req = record zero_container {
  name = req.name;
  image = if req.git_repo_url == "" then req.image else "";
  command = req.command;
  container_ports = if ltb_ℤ (pos 0) req.port then req.port ∷ [] else [];
  env = req.env;
  build_source = build_of req;
  resources = resources_of req;
}

abbrev pub labels_of : CreateDeploymentRequest → Assoc String
labels_of req =
    ("app", req.name)
    ∷ (if is_empty req.links then [] else (links_to_label, comma_joined req.links) ∷ [])

-- The deployment that the request asks for, with the volumes of its template.
abbrev pub deployment_of : CreateDeploymentRequest → List VolumeMount → Deployment
deployment_of req volumes = record {
  metadata = record zero_meta {
    name = req.name;
    namespace = req.namespace;
    labels = labels_of req;
  };
  spec = record {
    replicas = req.replicas;
    selector = ("app", req.name) ∷ [];
    template = record zero_pod_spec { containers = container_of req ∷ []; volumes = volumes };
    min_replicas = pos 0;
    max_replicas = pos 0;
  };
  status = record { replicas = pos 0; ready_replicas = pos 0 };
}

abbrev pub volume_of : CreateDeploymentRequest → Volume
volume_of req = record {
  metadata = record zero_meta { name = req.name; namespace = req.namespace };
  requested_bytes = pos 0x40000000;
  status = record {
    phase = volume_unspecified;
    capacity_bytes = pos 0;
    message = "";
    node_name = "";
  };
}

abbrev pub service_of : CreateDeploymentRequest → Service
service_of req = record {
  metadata = record zero_meta {
    name = req.name;
    namespace = req.namespace;
    labels = ("app", req.name) ∷ [];
  };
  spec = record {
    selector = ("app", req.name) ∷ [];
    port = req.port;
    target_port = req.port;
    node_port = pos 0;
  };
  endpoints = [];
}

-- The checks of a request before anything is looked up.
unfoldable pub is_refused : CreateDeploymentRequest → Bool
is_refused req =
    req.name == ""
    || (req.image == "" && req.git_repo_url == "")
    || (req.add_persistent_storage && ltb_ℤ (pos 1) req.replicas)
    || (req.add_persistent_storage && req.mount_path == "")
