-- ===== src/Api.antt =====
-- The messages of api/v1 (the generated structs), as records. A getter of a nil message returns the
-- zero value, so a nil message is the record of zero values. int32 and int64 fields are integers;
-- the code that computes with them wraps.
use nimbuscore.Netpolicy
use nimbuscore.Prelude.{ℕ, String, ℤ, pos, Bool, true, false, List, [], Option, none, Assoc}

pub record ObjectMeta : Type 0 where
  pub name : String
  pub namespace : String
  pub uid : String
  pub resource_version : String
  pub labels : Assoc String
  pub created_at_unix : ℤ

pub record ResourceList : Type 0 where
  pub cpu_millis : ℤ
  pub memory_bytes : ℤ
  pub accelerators : Assoc ℤ

pub record ResourceRequirements : Type 0 where
  pub requests : ResourceList
  pub limits : ResourceList

pub record SecurityContext : Type 0 where
  pub seccomp_profile : String
  pub add_capabilities : List String
  pub privileged : Bool
  pub allow_privilege_escalation : Bool
  pub run_as_non_root : Bool

pub record BuildSource : Type 0 where
  pub repo_url : String
  pub branch : String
  pub dockerfile_path : String
  pub context_path : String

pub record Container : Type 0 where
  pub name : String
  pub image : String
  pub resources : ResourceRequirements
  pub security_context : SecurityContext
  pub command : List String
  pub wasm_module_path : String
  pub container_ports : List ℤ
  pub env : Assoc String
  pub build_source : Option BuildSource

pub record VolumeMount : Type 0 where
  pub volume_name : String
  pub mount_path : String
  pub read_only : Bool

pub data RestartPolicy : Type 0 where
  restart_unspecified restart_always restart_on_failure restart_never : RestartPolicy

pub record PodSpec : Type 0 where
  pub containers : List Container
  pub node_name : String
  pub volumes : List VolumeMount
  pub restart_policy : RestartPolicy

pub data PodPhase : Type 0 where
  phase_unspecified phase_pending phase_running phase_succeeded phase_failed phase_unknown :
      PodPhase

pub record PodStatus : Type 0 where
  pub phase : PodPhase
  pub message : String
  pub restart_count : ℤ
  pub memory_usage_bytes : ℤ

pub record Pod : Type 0 where
  pub metadata : ObjectMeta
  pub spec : PodSpec
  pub status : PodStatus

pub record NodeStatus : Type 0 where
  pub capacity : ResourceList
  pub allocatable : ResourceList
  pub ready : Bool
  pub last_heartbeat_unix : ℤ
  pub internal_ip : String

pub record Node : Type 0 where
  pub metadata : ObjectMeta
  pub unschedulable : Bool
  pub status : NodeStatus

pub record DeploymentSpec : Type 0 where
  pub replicas : ℤ
  pub selector : Assoc String
  pub template : PodSpec
  pub min_replicas : ℤ
  pub max_replicas : ℤ

pub record DeploymentStatus : Type 0 where
  pub replicas : ℤ
  pub ready_replicas : ℤ

pub record Deployment : Type 0 where
  pub metadata : ObjectMeta
  pub spec : DeploymentSpec
  pub status : DeploymentStatus

pub data VolumePhase : Type 0 where
  volume_unspecified volume_pending volume_bound volume_failed : VolumePhase

pub record VolumeStatus : Type 0 where
  pub phase : VolumePhase
  pub capacity_bytes : ℤ
  pub message : String
  pub node_name : String

pub record Volume : Type 0 where
  pub metadata : ObjectMeta
  pub requested_bytes : ℤ
  pub status : VolumeStatus

pub record ServiceSpec : Type 0 where
  pub selector : Assoc String
  pub port : ℤ
  pub target_port : ℤ
  pub node_port : ℤ

pub record ServiceEndpoint : Type 0 where
  pub pod_name : String
  pub node_ip : String
  pub node_port : ℤ

pub record Service : Type 0 where
  pub metadata : ObjectMeta
  pub spec : ServiceSpec
  pub endpoints : List ServiceEndpoint

pub record Namespace : Type 0 where
  pub metadata : ObjectMeta

pub record Secret : Type 0 where
  pub metadata : ObjectMeta
  pub contents : Assoc (List ℕ)

pub record NetworkPolicy : Type 0 where
  pub metadata : ObjectMeta
  pub spec : Netpolicy.Policy

pub record Policy : Type 0 where
  pub metadata : ObjectMeta
  pub expression : String
  pub message : String

pub record ImageRecord : Type 0 where
  pub reference : String
  pub signature : List ℕ
  pub pushed_at_unix : ℤ

-- The zero values.
abbrev pub zero_meta : ObjectMeta
zero_meta = record {
  name = "";
  namespace = "";
  uid = "";
  resource_version = "";
  labels = [];
  created_at_unix = pos 0;
}

abbrev pub zero_resources : ResourceList
zero_resources = record { cpu_millis = pos 0; memory_bytes = pos 0; accelerators = [] }

abbrev pub zero_security : SecurityContext
zero_security = record {
  seccomp_profile = "";
  add_capabilities = [];
  privileged = false;
  allow_privilege_escalation = false;
  run_as_non_root = false;
}

abbrev pub zero_container : Container
zero_container = record {
  name = "";
  image = "";
  resources = record { requests = zero_resources; limits = zero_resources };
  security_context = zero_security;
  command = [];
  wasm_module_path = "";
  container_ports = [];
  env = [];
  build_source = none;
}

abbrev pub zero_pod_spec : PodSpec
zero_pod_spec = record {
  containers = [];
  node_name = "";
  volumes = [];
  restart_policy = restart_unspecified;
}

abbrev pub zero_pod_status : PodStatus
zero_pod_status = record {
  phase = phase_unspecified;
  message = "";
  restart_count = pos 0;
  memory_usage_bytes = pos 0;
}

abbrev pub zero_node_status : NodeStatus
zero_node_status = record {
  capacity = zero_resources;
  allocatable = zero_resources;
  ready = false;
  last_heartbeat_unix = pos 0;
  internal_ip = "";
}

-- Tests of an enumeration.
abbrev pub is_running : PodPhase → Bool
is_running phase_running = true
is_running _ = false

-- The phases that a pod does not leave.
abbrev pub is_terminal : PodPhase → Bool
is_terminal phase_succeeded = true
is_terminal phase_failed = true
is_terminal _ = false
