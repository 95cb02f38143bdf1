-- ===== src/Agent/Host.antt =====
-- What the agent asks of its machine, and internal/agent/containerd_client.go on top of it. The calls
-- into containerd, the operating system and the WebAssembly runtime are the fields of `Host`.
use Prim.Native.String.{◌++◌}
use nimbuscore.Prelude.{
  ℕ, ℤ, pos, String, Bool, ltb_ℤ, mul64, List, [], ◌∷◌, map, Option, none, some, Assoc, lookup_or,
  insert, ◌==◌, if◌then◌else◌, is_empty, wrap, half32,
}
use nimbuscore.Api.{BuildSource, PodStatus, Pod, Service}

-- A call that never comes back is `blocked`.
pub data Reply {ℓ} (A : Type ℓ) : Type ℓ where
  done : A → Reply A
  failed : String → Reply A
  blocked : Reply A

-- The path of an error is wrapped: fmt.Errorf("…: %w", err)
abbrev pub wrapped {ℓ} : {A : Type ℓ} → String → Reply A → Reply A
wrapped text (done a) = done a
wrapped text (failed e) = failed (text ++ ": " ++ e)
wrapped text blocked = blocked

pub record Task : Type 0 where
  pub id : String
  pub pid : ℤ
  pub running : Bool

pub record Mount : Type 0 where
  pub source : String
  pub destination : String
  pub options : List String

-- containerdRunSpec. An image is a handle of containerd's.
pub record RunSpec : Type 0 where
  pub id : String
  pub image : String
  pub command : List String
  pub env : Assoc String
  pub cpu_millis : ℤ
  pub mem_bytes : ℤ
  pub mounts : List Mount
  pub log_path : String

-- What a container is made with: the options of the OCI specification that runContainerdContainer
-- gives beside the fixed ones.
pub record ContainerSpec : Type 0 where
  pub id : String
  pub image : String
  pub env : List String
  pub hostname : String
  pub process_args : Option (List String)
  pub mounts : List Mount
  pub cpu_quota : Option ℤ
  pub memory_limit : Option ℤ

-- Paths are texts that the host joins: `join` is filepath.Join.
pub record Host (W : Type 0) : Type 0 where
  pub connect : W → Reply (Unit {0}) × W
  pub list_tasks : W → Reply (List Task) × W
  pub pull : String → W → Reply String × W
  pub get_image : String → W → Reply String × W
  pub get_hostname : W → Reply String × W
  pub sort : List String → List String
  pub new_container : ContainerSpec → W → Reply (Unit {0}) × W
  pub new_task : String → String → W → Reply (Unit {0}) × W
  pub start_task : String → W → Reply (Unit {0}) × W
  pub load_container : String → W → Reply (Unit {0}) × W
  pub load_task : String → W → Reply (Unit {0}) × W
  pub delete_task : String → W → W
  pub delete_container : String → W → W
  pub build_image : String → String → String → String → BuildSource → W → Reply String × W
  pub join : List String → String
  pub temp_dir : String
  pub make_dir : String → W → Reply (Unit {0}) × W
  pub absolute : String → W → Reply String × W
  pub remove_file : String → W → W
  pub start_command : List String → W → Reply ℤ × W
  pub kill : ℤ → W → W
  pub read_file : String → W → Reply (List ℕ) × W
  pub new_wasm : W → Reply ℕ × W
  pub run_wasm : ℕ → List ℕ → W → W
  pub close_wasm : ℕ → W → W
  pub resident_bytes : ℤ → W → Reply ℤ × W
  pub list_pods : W → Reply (List Pod) × W
  pub list_services : W → Reply (List Service) × W
  pub update_pod_status : String → String → PodStatus → W → Reply (Unit {0}) × W
  pub listen : ℤ → W → Reply ℕ × W
  pub close : ℕ → W → W

-- Actions on the machine.
abbrev pub Act : Type 0 → Type 0 → Type 0
Act W A = W → Reply A × W

abbrev pub give : {W A : Type 0} → A → Act W A
give a w = (done a, w)

abbrev pub throw : {W A : Type 0} → String → Act W A
throw e w = (failed e, w)

abbrev pub follow : {W A B : Type 0} → Reply A → (A → Act W B) → Act W B
follow (done a) f w = f a w
follow (failed e) f w = (failed e, w)
follow blocked f w = (blocked, w)

infixl 5 ◌>>=◌ ◌>>◌
abbrev pub ◌>>=◌ : {W A B : Type 0} → Act W A → (A → Act W B) → Act W B
◌>>=◌ m f w = let (r, t) = m w in follow r f t

abbrev pub ◌>>◌ : {W A B : Type 0} → Act W A → Act W B → Act W B
m >> k = m >>= λ _. k

abbrev pub wrapping : {W A : Type 0} → String → Act W A → Act W A
wrapping text m w = let (r, t) = m w in (wrapped text r, t)

abbrev pub just : {W : Type 0} → (W → W) → Act W (Unit {0})
just f w = (done tt, f w)

-- What happens when a call failed, before its error is passed on.
abbrev pub after_failure : {W A : Type 0} → (W → W) → Reply A → W → Reply A × W
after_failure cleanup (done a) w = (done a, w)
after_failure cleanup (failed e) w = (failed e, cleanup w)
after_failure cleanup blocked w = (blocked, w)

abbrev pub cleaning : {W A : Type 0} → (W → W) → Act W A → Act W A
cleaning cleanup m w = let (r, t) = m w in after_failure cleanup r t

module _ {W : Type 0} (host : Host W) where
  -- pullContainerdImage
  unfoldable pub pull_containerd_image : String → Act W String
  pull_containerd_image ref = host.connect >> wrapping ("agent: pull image " ++ ref) (host.pull ref)

  -- localContainerdImage
  unfoldable pub local_containerd_image : String → Act W String
  local_containerd_image ref =
      host.connect >> wrapping ("agent: look up built image " ++ ref) (host.get_image ref)

  abbrev pub env_pair : Assoc String → String → String
  env_pair env k = k ++ "=" ++ lookup_or "" k env

  abbrev pub container_spec : RunSpec → String → ContainerSpec
  container_spec spec hostname = record {
    id = spec.id;
    image = spec.image;
    env = map (env_pair spec.env) (host.sort (map (λ e. e.0) spec.env));
    hostname = hostname;
    process_args = if is_empty spec.command then none else some spec.command;
    mounts = spec.mounts;
    cpu_quota =
        if ltb_ℤ (pos 0) spec.cpu_millis then some (mul64 spec.cpu_millis (pos 100)) else none;
    memory_limit = if ltb_ℤ (pos 0) spec.mem_bytes then some spec.mem_bytes else none;
  }

  -- runContainerdContainer: a container whose task cannot be made or started is taken away again.
  unfoldable pub run_containerd_container : RunSpec → Act W (Unit {0})
  run_containerd_container spec =
      host.connect
      >> (wrapping "agent: get hostname" host.get_hostname >>= λ hostname.
          wrapping ("agent: create container " ++ spec.id)
            (host.new_container (container_spec spec hostname))
          >> wrapping ("agent: create task for " ++ spec.id)
              (cleaning (host.delete_container spec.id) (host.new_task spec.id spec.log_path))
          >> wrapping ("agent: start task for " ++ spec.id) (
              cleaning (λ w. host.delete_container spec.id (host.delete_task spec.id w))
                (host.start_task spec.id)))

  abbrev pub torn_down : String → Reply (Unit {0}) → W → W
  torn_down id (done u) w =
      let (t, v) = host.load_task id w in
      elim t [
        | done u ↦ host.delete_container id (host.delete_task id v)
        | failed e ↦ host.delete_container id v
        | blocked ↦ v
      ]
  torn_down id (failed e) w = w
  torn_down id blocked w = w

  abbrev pub loaded : String → Reply (Unit {0}) → W → W
  loaded id (done u) w = let (c, v) = host.load_container id w in torn_down id c v
  loaded id (failed e) w = w
  loaded id blocked w = w

  -- removeContainerdContainer, which reports no error
  unfoldable pub remove_containerd_container : String → W → W
  remove_containerd_container id w = let (r, t) = host.connect w in loaded id r t

  -- containerdTasks
  unfoldable pub containerd_tasks : Act W (List Task)
  containerd_tasks = host.connect >> host.list_tasks

  -- int32(p.Pid) of the first task with the id
  unfoldable pub find_pid : String → List Task → Option ℤ
  find_pid id [] = none
  find_pid id (t ∷ ts) = if t.id == id then some (wrap half32 t.pid) else find_pid id ts

  -- containerdTaskPID
  unfoldable pub containerd_task_pid : String → Act W ℤ
  unfolding containerd_tasks find_pid
  containerd_task_pid id = containerd_tasks >>= λ ts. elim (find_pid id ts) [
    | none ↦ throw ("agent: task " ++ id ++ " not found")
    | some pid ↦ give pid
  ]

  -- The loop of listContainerdTaskStatuses, which writes each task's state into the map.
  unfoldable pub statuses_of : Assoc Bool → List Task → Assoc Bool
  statuses_of m [] = m
  statuses_of m (t ∷ ts) = statuses_of (insert t.id t.running m) ts

  -- listContainerdTaskStatuses
  unfoldable pub list_containerd_task_statuses : Act W (Assoc Bool)
  unfolding containerd_tasks statuses_of
  list_containerd_task_statuses = containerd_tasks >>= λ ts. give (statuses_of [] ts)
