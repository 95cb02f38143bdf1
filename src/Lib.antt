-- ===== src/Lib.antt =====
-- The control plane of nimbuscore, an orchestrator of containers: a store of objects, controllers
-- that move the cluster towards what deployments ask for, an API server that guards the store, the
-- agents that run the pods on the nodes, and the client side of its service mesh.
--
-- How the parts interact. The API server's handlers (internal/apiserver) check who calls
-- (auth.go, rbac.go, internal/rbac), run the admission chain (internal/admission) and write objects
-- through registries (internal/registry) to the store (internal/store). The deployment controller
-- (internal/controller/deployment.go) reads deployments and pods from the same registries, creates
-- and deletes pods, and asks the scheduler (internal/scheduler) for a node for each pod that waits.
-- The agent of a node (internal/agent) lists the pods through the API, starts and stops processes and
-- containers to match, and reports heartbeats and pod states; volumes are directories that the
-- storage driver (internal/csi/hostpath) makes and the agent mounts. The dashboard's handlers call
-- those of the API server, gitops writes deployments to the registry, and federation keeps
-- connections to other clusters.
--
-- Which file models what.
--   Api: the messages of api/v1, a record for each struct that the code computes with. A nil message
--     is the record of zero values, as the generated getters read it.
--   Cluster: the objects, a map for each kind of internal/registry/registry.go with the keys of
--     `Registry.key`, and the monad of actions that may fail. Cluster.Keys is about the keys,
--     Cluster.Reads and Cluster.Results about single operations.
--   Scheduler: `Schedule` of internal/scheduler/scheduler.go. Best is about the choice, Fit about
--     the filters.
--   Controller.Usage, Controller.Schedule: internal/controller/scheduling.go and pod.go,
--     `computeNodeUsage` and `scheduleUnassigned` of deployment.go.
--   Controller.Deployment: `reconcileAll`, `reconcileOne` and what they call. Indices, Names, ScaleUp,
--     Owned and Scaling are about its steps.
--   Controller.Capacity: internal/controller/capacity.go and `capToClusterCapacity` of hpa.go. Fits is
--     about the limits. Controller.Autoscaler: `reconcileAll` and `reconcileOne` of hpa.go.
--   Rbac, Apiserver.Methods, Apiserver.Auth: internal/rbac/rbac.go, internal/apiserver/rbac.go and
--     auth.go.
--   Apiserver.Services, Pods, Deployments, Nodes: the handlers of service_service.go, pod_service.go,
--     deployment_service.go and node_service.go of internal/apiserver; Nodes also has `checkAll` of
--     internal/controller/node_health.go. Apiserver.Codes stands for their status codes.
--   Apiserver.Namespaces, Secrets, NetworkPolicies, Policies, Images, Identity, Admin: the handlers of
--     namespace_service.go, secret_service.go, networkpolicy_service.go, policy_service.go,
--     imageregistry_service.go, identity_service.go and admin_service.go. Apiserver.Volumes:
--     volume_service.go, on the store and the driver's directories together.
--   Agent.Loop: internal/agent/agent.go; Growth, Laws and Exit are about what keeps running.
--     Agent.Runtime: process.go, with `checkContainerdExits` in Agent.Runtime.Exits and the image
--     references in Agent.Images. Agent.Host: containerd_client.go, on a record of the calls into the
--     machine. Agent.NodePorts: nodeport.go. Agent.Files: files.go. Agent.Logs: logserver.go.
--     Agent.Build: the Dockerfiles of build.go.
--   Csi: internal/csi/hostpath/hostpath.go. Disk and Paths: what it and Agent.Files use of Go's
--     packages os and path/filepath.
--   Dashboard: internal/dashboard, the sessions of session.go in Session and the handlers of
--     dashboard.go in Handlers, Request, Deploy and Metrics. Gitops: one round of `Sync` of
--     internal/gitops/reconciler.go. Federation: internal/federation/registry.go and federation_service.go of
--     internal/apiserver.
--   Admission: internal/admission, a module for each validator, and `PodView` of
--     internal/policy/engine.go in Admission.Policies.
--   Netpolicy: internal/netpolicy/engine.go.
--   Mesh: internal/mesh, the circuit breaker as a state machine with the clock as an argument, and
--     one call through the interceptor.
--   Store: internal/store/raft.go with the encryption of crypto.go, and `rotate` of
--     internal/controller/key_rotation.go. Store.Backup is internal/apiserver/backup_service.go.
--   Prelude: tests, lists, signed integers with wrap-around, texts and maps. Fixtures: a small
--     cluster for the tests, which stand in the modules named Tests.
--
-- Conventions. A Go map is an association list; an iteration goes in the order of the list, and the
-- theorems hold for every list, so for every order. int32 and int64 are integers, and the code's sums
-- and differences of them wrap (add64, sub64, mul64). A handler or a controller is a function of the
-- cluster to a result and a cluster; the n-th operation on the store fails when the cluster's `fails`
-- says so, and then changes nothing; IsHealthy says that none fails. An error keeps its kind and not
-- all of its text; `panicked` is the end of the process. The loop that looks for free replica indices
-- runs on fuel: the number of indices in use plus that of the pods to create, which is enough since
-- each round either meets an index in use or creates a pod. All other loops follow a list or a
-- count. The retry loop makes at most the policy's number of attempts.
--
-- The agent acts on a state of what it tracks and a world of any type, and the calls into containerd,
-- the operating system and the network are functions of that world, gathered in the record
-- Agent.Host.Host; a call that never returns is `blocked`. Behind the check for exits the
-- model of a reconciliation goes on after such a call, where the agent would wait. A disk is a list of entries by path, and its
-- n-th call fails when `fails` says so; at most 40 links are followed, as on Linux. Paths are lists of
-- segments, as filepath.Clean leaves them.
--
-- Parameters. What libraries do is an argument: parsing and matching SPIFFE IDs, strings.EqualFold,
-- compiling and evaluating CEL expressions, verifying images, the products of a duration with a
-- float, sealing and opening of values, the commitment of commands by raft, and the outcome of each
-- attempt of a call, JSON of a volume's metadata and of package.json, parsing of certificate requests,
-- the issuing of certificates, the code and the base64 of session tokens, the count that the autoscaler
-- computes in floating point, the fetch of a repository, and the dialing of a remote cluster.
-- Hypotheses on them: decoding undoes encoding, opening undoes sealing under the same key, and fails
-- under another; an identity keeps the path that it is built from; where a theorem says so, commands
-- start and ports can be listened on.
--
-- Not modelled: certificates and their files, the checks of image signatures, the clone and build of an
-- image, the command-line programs (processes, network, files, libraries), and the cost report
-- (floating point). Of the dashboard, the forwarding of requests to agents and the static files are
-- left out; of the agent, the goroutines that wait for a process are not interleaved with the loop.
mod Prelude
pub mod Paths
pub mod Disk
pub mod Csi
pub mod Agent
pub mod Dashboard
pub mod Gitops
pub mod Federation
pub mod Api
pub mod Cluster
pub mod Scheduler
pub mod Controller
pub mod Rbac
pub mod Apiserver
pub mod Netpolicy
pub mod Mesh
pub mod Admission
pub mod Store
mod Fixtures
