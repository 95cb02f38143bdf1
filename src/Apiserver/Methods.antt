-- ===== src/Apiserver/Methods.antt =====
-- internal/apiserver/rbac.go: the resource and the verb of each method, and the default bindings.
use nimbuscore.Prelude.{String, [], ◌∷◌, Assoc}
use nimbuscore.Rbac.{Role, Authorizer, wildcard}

pub record ResourceVerb : Type 0 where
  pub resource : String
  pub verb : String

abbrev to : String → String → String → String × ResourceVerb
to method resource verb = (method, record { resource = resource; verb = verb })

unfoldable pub method_resource_verb : Assoc ResourceVerb
method_resource_verb =
    to "/nimbuscore.v1.PodService/CreatePod" "pods" "create"
    ∷ to "/nimbuscore.v1.PodService/GetPod" "pods" "get"
    ∷ to "/nimbuscore.v1.PodService/ListPods" "pods" "list"
    ∷ to "/nimbuscore.v1.PodService/DeletePod" "pods" "delete"
    ∷ to "/nimbuscore.v1.PodService/UpdatePodStatus" "pods" "update"
    ∷ to "/nimbuscore.v1.NodeService/CreateNode" "nodes" "create"
    ∷ to "/nimbuscore.v1.NodeService/GetNode" "nodes" "get"
    ∷ to "/nimbuscore.v1.NodeService/ListNodes" "nodes" "list"
    ∷ to "/nimbuscore.v1.NodeService/DeleteNode" "nodes" "delete"
    ∷ to "/nimbuscore.v1.NodeService/Heartbeat" "nodes" "update"
    ∷ to "/nimbuscore.v1.DeploymentService/CreateDeployment" "deployments" "create"
    ∷ to "/nimbuscore.v1.DeploymentService/GetDeployment" "deployments" "get"
    ∷ to "/nimbuscore.v1.DeploymentService/ListDeployments" "deployments" "list"
    ∷ to "/nimbuscore.v1.DeploymentService/DeleteDeployment" "deployments" "delete"
    ∷ to "/nimbuscore.v1.NamespaceService/CreateNamespace" "namespaces" "create"
    ∷ to "/nimbuscore.v1.NamespaceService/GetNamespace" "namespaces" "get"
    ∷ to "/nimbuscore.v1.NamespaceService/ListNamespaces" "namespaces" "list"
    ∷ to "/nimbuscore.v1.NamespaceService/DeleteNamespace" "namespaces" "delete"
    ∷ to "/nimbuscore.v1.VolumeService/CreateVolume" "volumes" "create"
    ∷ to "/nimbuscore.v1.VolumeService/GetVolume" "volumes" "get"
    ∷ to "/nimbuscore.v1.VolumeService/ListVolumes" "volumes" "list"
    ∷ to "/nimbuscore.v1.VolumeService/DeleteVolume" "volumes" "delete"
    ∷ to "/nimbuscore.v1.NetworkPolicyService/CreateNetworkPolicy" "networkpolicies" "create"
    ∷ to "/nimbuscore.v1.NetworkPolicyService/GetNetworkPolicy" "networkpolicies" "get"
    ∷ to "/nimbuscore.v1.NetworkPolicyService/ListNetworkPolicies" "networkpolicies" "list"
    ∷ to "/nimbuscore.v1.NetworkPolicyService/DeleteNetworkPolicy" "networkpolicies" "delete"
    ∷ to "/nimbuscore.v1.ServiceService/CreateService" "services" "create"
    ∷ to "/nimbuscore.v1.ServiceService/GetService" "services" "get"
    ∷ to "/nimbuscore.v1.ServiceService/ListServices" "services" "list"
    ∷ to "/nimbuscore.v1.ServiceService/DeleteService" "services" "delete"
    ∷ to "/nimbuscore.v1.PolicyService/CreatePolicy" "policies" "create"
    ∷ to "/nimbuscore.v1.PolicyService/GetPolicy" "policies" "get"
    ∷ to "/nimbuscore.v1.PolicyService/ListPolicies" "policies" "list"
    ∷ to "/nimbuscore.v1.PolicyService/DeletePolicy" "policies" "delete"
    ∷ to "/nimbuscore.v1.SecretService/CreateSecret" "secrets" "create"
    ∷ to "/nimbuscore.v1.SecretService/GetSecret" "secrets" "get"
    ∷ to "/nimbuscore.v1.SecretService/ListSecrets" "secrets" "list"
    ∷ to "/nimbuscore.v1.SecretService/DeleteSecret" "secrets" "delete"
    ∷ to "/nimbuscore.v1.ImageRegistryService/PushImage" "images" "create"
    ∷ to "/nimbuscore.v1.ImageRegistryService/GetImage" "images" "get"
    ∷ to "/nimbuscore.v1.ImageRegistryService/ListImages" "images" "list"
    ∷ to "/nimbuscore.v1.ImageRegistryService/DeleteImage" "images" "delete"
    ∷ to "/nimbuscore.v1.BackupService/CreateBackup" "backup" "create"
    ∷ to "/nimbuscore.v1.BackupService/RestoreBackup" "backup" "restore"
    ∷ to "/nimbuscore.v1.FederationService/RegisterCluster" "federation" "create"
    ∷ to "/nimbuscore.v1.FederationService/UnregisterCluster" "federation" "delete"
    ∷ to "/nimbuscore.v1.FederationService/ListClusters" "federation" "list"
    ∷ to "/nimbuscore.v1.FederationService/ListFederatedPods" "federation" "list"
    ∷ to "/nimbuscore.v1.AdminService/JoinRaft" "admin" "join"
    ∷ to "/nimbuscore.v1.FinOpsService/GetCostReport" "finops" "get"
    ∷ []

unfoldable pub node_role : Role
node_role = record {
  name = "node";
  rules =
      record { resources = "nodes" ∷ []; verbs = "create" ∷ "update" ∷ [] }
      ∷ record { resources = "pods" ∷ []; verbs = "list" ∷ "update" ∷ [] }
      ∷ record { resources = "services" ∷ []; verbs = "list" ∷ [] }
      ∷ [];
}

unfoldable pub client_role : Role
client_role = record {
  name = "client";
  rules =
      record {
        resources =
            "pods" ∷ "deployments" ∷ "volumes" ∷ "networkpolicies" ∷ "services" ∷ "policies"
            ∷ "secrets" ∷ "images" ∷ "backup" ∷ "federation" ∷ "finops" ∷ "namespaces" ∷ [];
        verbs = wildcard ∷ [];
      }
      ∷ record { resources = "nodes" ∷ []; verbs = "get" ∷ "list" ∷ [] }
      ∷ [];
}

unfoldable pub control_plane_role : Role
control_plane_role = record {
  name = "control-plane";
  rules = record { resources = wildcard ∷ []; verbs = wildcard ∷ [] } ∷ [];
}

unfoldable pub default_rbac_bindings : Authorizer
unfolding node_role client_role control_plane_role
default_rbac_bindings =
    record { path_prefix = "/node/"; role = node_role }
    ∷ record { path_prefix = "/client/"; role = client_role }
    ∷ record { path_prefix = "/control-plane/"; role = control_plane_role }
    ∷ []
