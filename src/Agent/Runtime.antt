-- ===== src/Agent/Runtime.antt =====
-- `processRuntime` of internal/agent/process.go: the processes, containers and WebAssembly modules that
-- the agent runs, one for each pod. The agent's loop is one goroutine; the goroutines that wait for a
-- process only send to the channel of exits.
pub mod Exits
use Prim.Native.String.{◌++◌}
use nimbuscore.Prelude.{
  ℕ, ℤ, pos, String, Bool, true, false, not, ◌&&◌, ◌||◌, add32, List, [], ◌∷◌, Option, none, some,
  Assoc, lookup, lookup_or, insert, remove, ◌==◌, if◌then◌else◌, is_empty, map,
}
use nimbuscore.Api.{Pod, Container, BuildSource, VolumeMount, zero_container}
use nimbuscore.Agent.Images.{resolve_image_ref}
use nimbuscore.Agent.Host.{
  Reply, done, failed, blocked, Mount, RunSpec, Host, Act, give, throw, ◌>>=◌, ◌>>◌, wrapping, just,
  run_containerd_container, remove_containerd_container, list_containerd_task_statuses,
  pull_containerd_image, local_containerd_image, containerd_task_pid,
}

pub record ExitEvent : Type 0 where
  pub key : String
  pub exit_code : ℤ

-- A command is known by its process id, a WebAssembly runtime by its handle.
pub record TrackedProcess : Type 0 where
  pub pod : Pod
  pub command : Option ℤ
  pub wasm_runtime : Option ℕ
  pub container_id : String
  pub restarts : ℤ

-- `exited` holds the events that are sent and not received yet.
pub record ProcessRuntime : Type 0 where
  pub procs : Assoc TrackedProcess
  pub exited : List ExitEvent
  pub log_dir : String
  pub build_dir : String
  pub buildkit_addr : String
  pub volumes_dir : String
  pub missing_streaks : Assoc ℕ

pub record State (W : Type 0) : Type 0 where
  pub runtime : ProcessRuntime
  pub world : W

-- newProcessRuntime
abbrev pub new_process_runtime : ProcessRuntime
new_process_runtime = record {
  procs = [];
  exited = [];
  log_dir = "";
  build_dir = "";
  buildkit_addr = "";
  volumes_dir = "";
  missing_streaks = [];
}

abbrev pub pod_key : Pod → String
pod_key pod = pod.metadata.namespace ++ "/" ++ pod.metadata.name

abbrev pub container_name_raw : String → String → String
container_name_raw namespace name = "nimbus-" ++ namespace ++ "-" ++ name

abbrev pub container_name : Pod → String
container_name pod = container_name_raw pod.metadata.namespace pod.metadata.name

abbrev pub is_there : {A : Type 0} → Option A → Bool
is_there none = false
is_there (some a) = true

abbrev pub has : ProcessRuntime → String → Bool
has r key = is_there (lookup key r.procs)

abbrev pub keys : ProcessRuntime → List String
keys r = map (λ e. e.0) r.procs

abbrev pub restarts_of : Option TrackedProcess → ℤ
restarts_of none = pos 0
restarts_of (some tp) = tp.restarts

abbrev pub restart_count : ProcessRuntime → String → ℤ
restart_count r key = restarts_of (lookup key r.procs)

abbrev pub pod_in : Option TrackedProcess → Option Pod
pod_in none = none
pod_in (some tp) = some tp.pod

-- podOf
abbrev pub pod_of : ProcessRuntime → String → Option Pod
pod_of r key = pod_in (lookup key r.procs)

-- firstContainer, and the zero value that the getters of a nil container read
abbrev pub first_of : List Container → Container
first_of [] = zero_container
first_of (c ∷ cs) = c

abbrev pub first_container : Pod → Container
first_container pod = first_of pod.spec.containers

abbrev pub set_runtime : {W : Type 0} → (ProcessRuntime → ProcessRuntime) → Act (State W) (Unit {0})
set_runtime f s = (done tt, record s { runtime = f s.runtime })

abbrev pub on_host : {W A : Type 0} → Act W A → Act (State W) A
on_host m s = let (r, w) = m s.world in (r, record s { world = w })

-- A process is put down for its pod, with the restarts counted so far.
abbrev pub tracked : TrackedProcess → ProcessRuntime → ProcessRuntime
tracked tp r = record r {
  procs =
      insert (pod_key tp.pod) (record tp { restarts = restart_count r (pod_key tp.pod) }) r.procs;
}

abbrev pub fresh : Pod → TrackedProcess
fresh pod = record {
  pod = pod;
  command = none;
  wasm_runtime = none;
  container_id = "";
  restarts = pos 0;
}

abbrev pub or_default : String → String → String
or_default s d = if s == "" then d else s

module _ {W : Type 0} (host : Host W) where
  -- ensureVolumeDir
  unfoldable pub ensure_volume_dir : String → String → String → Act W String
  ensure_volume_dir volumes_dir namespace volume_name =
      let dir = host.join (volumes_dir ∷ namespace ∷ volume_name ∷ []) in
      wrapping ("agent: create volume dir " ++ dir) (host.make_dir dir)
      >> wrapping ("agent: resolve volume dir " ++ dir) (host.absolute dir)

  abbrev pub mount_at : VolumeMount → String → Mount
  mount_at m dir = record {
    source = dir;
    destination = m.mount_path;
    options = "rbind" ∷ (if m.read_only then "ro" else "rw") ∷ [];
  }

  -- The mounts of startContainerd.
  unfoldable pub mounts_of : String → String → List VolumeMount → Act W (List Mount)
  unfolding ensure_volume_dir
  mounts_of volumes_dir namespace [] = give []
  mounts_of volumes_dir namespace (m ∷ ms) =
      ensure_volume_dir volumes_dir namespace m.volume_name >>= λ dir.
      mounts_of volumes_dir namespace ms >>= λ rest. give (mount_at m dir ∷ rest)

  -- logFilePath
  abbrev pub log_file_path : String → String → String
  log_file_path log_dir container_id = host.join (log_dir ∷ (container_id ++ ".log") ∷ [])

  -- The log file of a container, emptied. Without a log directory there is none.
  unfoldable pub prepare_log : String → String → Act W String
  prepare_log log_dir id =
      if log_dir == ""
      then give ""
      else (wrapping ("agent: create log dir " ++ log_dir) (host.make_dir log_dir)
          >> (wrapping "agent: resolve log path" (host.absolute (log_file_path log_dir id))
              >>= λ path. just (host.remove_file path) >> give path))

  abbrev pub image_from : ProcessRuntime → String → String → Option BuildSource → Act W String
  image_from r id image none = pull_containerd_image host (resolve_image_ref image)
  image_from r id image (some src) =
      host.build_image (or_default r.buildkit_addr "unix:///run/buildkit/buildkitd.sock")
        (host.join
          (or_default r.build_dir (host.join (host.temp_dir ∷ "nimbus-builds" ∷ [])) ∷ id ∷ []))
        r.log_dir id src
      >>= local_containerd_image host

  abbrev pub run_spec : Pod → String → String → List Mount → RunSpec
  run_spec pod image log_path mounts = record {
    id = container_name pod;
    image = image;
    command = (first_container pod).command;
    env = (first_container pod).env;
    cpu_millis = (first_container pod).resources.limits.cpu_millis;
    mem_bytes = (first_container pod).resources.limits.memory_bytes;
    mounts = mounts;
    log_path = log_path;
  }

  -- The part of startContainerd before the process is put down.
  unfoldable pub launch : ProcessRuntime → Pod → Act W (Unit {0})
  unfolding mounts_of prepare_log
  launch r pod =
      just (remove_containerd_container host (container_name pod))
      >> (image_from r (container_name pod) (first_container pod).image
            (first_container pod).build_source
          >>= λ image. prepare_log r.log_dir (container_name pod) >>= λ log_path.
              (if r.volumes_dir == ""
                then give []
                else mounts_of r.volumes_dir pod.metadata.namespace pod.spec.volumes)
              >>= λ mounts. run_containerd_container host (run_spec pod image log_path mounts))

  abbrev pub with_runtime : {A : Type 0} → (ProcessRuntime → Act (State W) A) → Act (State W) A
  with_runtime f s = f s.runtime s

  -- startContainerd
  unfoldable pub start_containerd : Pod → Act (State W) (Unit {0})
  unfolding launch
  start_containerd pod =
      with_runtime (λ r. on_host (launch r pod))
      >> set_runtime (tracked (record (fresh pod) { container_id = container_name pod }))

  -- startProcess
  unfoldable pub start_process : Pod → Act (State W) (Unit {0})
  start_process pod =
      if is_empty (first_container pod).command
      then throw
          ("agent: pod " ++ pod_key pod ++ " has neither a command nor a wasm_module_path to run")
      else (on_host (host.start_command (first_container pod).command) >>= λ pid.
          set_runtime (tracked (record (fresh pod) { command = some pid })))

  abbrev pub run_module : Pod → List ℕ → ℕ → Act (State W) (Unit {0})
  run_module pod bytes rt =
      set_runtime (tracked (record (fresh pod) { wasm_runtime = some rt }))
      >> on_host (just (host.run_wasm rt bytes))

  abbrev pub run_bytes : Pod → String → List ℕ → Act (State W) (Unit {0})
  run_bytes pod path bytes =
      on_host (wrapping ("agent: init wasm runtime for " ++ path) host.new_wasm)
      >>= run_module pod bytes

  -- startWASM: the module runs on its own from there.
  unfoldable pub start_wasm : Pod → String → Act (State W) (Unit {0})
  start_wasm pod path =
      on_host (wrapping ("agent: read wasm module " ++ path) (host.read_file path))
      >>= run_bytes pod path

  -- A container comes from an image or a build.
  abbrev pub is_containerd : Pod → Bool
  is_containerd pod =
      not ((first_container pod).image == "") || is_there (first_container pod).build_source

  -- start
  unfoldable pub start : Pod → Act (State W) (Unit {0})
  unfolding start_containerd start_process start_wasm
  start pod =
      if not ((first_container pod).wasm_module_path == "")
      then start_wasm pod (first_container pod).wasm_module_path
      else if is_containerd pod
      then start_containerd pod
      else start_process pod

  abbrev pub bump : Option TrackedProcess → String → ProcessRuntime → ProcessRuntime
  bump none key r = r
  bump (some tp) key r = record r {
    procs = insert key (record tp { restarts = add32 tp.restarts (pos 1) }) r.procs;
  }

  -- restart
  unfoldable pub restart : Pod → Act (State W) (Unit {0})
  unfolding start
  restart pod = set_runtime (λ r. bump (lookup (pod_key pod) r.procs) (pod_key pod) r) >> start pod

  abbrev pub on_some : {A : Type 0} → (A → W → W) → Option A → W → W
  on_some f none w = w
  on_some f (some a) w = f a w

  -- What stop does to a process that was put down.
  abbrev pub ended : TrackedProcess → W → W
  ended tp w = on_some host.close_wasm tp.wasm_runtime (
      on_some host.kill tp.command
        (if tp.container_id == "" then w else remove_containerd_container host tp.container_id w))

  -- stop
  unfoldable pub stop : String → State W → State W
  stop key s = record {
    runtime = record s.runtime { procs = remove key s.runtime.procs };
    world = on_some ended (lookup key s.runtime.procs) s.world;
  }

  -- stopAll
  unfoldable pub stop_each : List String → State W → State W
  unfolding stop
  stop_each [] s = s
  stop_each (k ∷ ks) s = stop_each ks (stop k s)

  unfoldable pub stop_all : State W → State W
  unfolding stop_each
  stop_all s = stop_each (keys s.runtime) s

  abbrev pub adopted : Pod → Reply (Assoc Bool) → State W → Bool × State W
  adopted pod (failed e) s = (false, s)
  adopted pod blocked s = (false, s)
  adopted pod (done statuses) s =
      if lookup_or false (container_name pod) statuses
      then (
        true,
        record s {
          runtime = record s.runtime {
            procs =
                insert (pod_key pod) (record (fresh pod) { container_id = container_name pod })
                  s.runtime.procs;
          };
        },
      )
      else (false, s)

  -- adoptIfRunning
  unfoldable pub adopt_if_running : Pod → State W → Bool × State W
  adopt_if_running pod s =
      if is_containerd pod
      then (let (r, t) = on_host (list_containerd_task_statuses host) s in adopted pod r t)
      else (false, s)

  abbrev pub runs_in : String → Reply (Assoc Bool) → Bool
  runs_in id (done statuses) = lookup_or false id statuses
  runs_in id (failed e) = false
  runs_in id blocked = false

  abbrev pub running_as : Option TrackedProcess → State W → Bool × State W
  running_as none s = (false, s)
  running_as (some tp) s =
      if tp.container_id == ""
      then (false, s)
      else (let (r, t) = on_host (list_containerd_task_statuses host) s in
          (runs_in tp.container_id r, t))

  -- stillRunning
  unfoldable pub still_running : String → State W → Bool × State W
  still_running key s = running_as (lookup key s.runtime.procs) s

  -- A number of bytes, or zero after an error.
  abbrev pub or_zero : Reply ℤ → ℤ
  or_zero (done n) = n
  or_zero (failed e) = pos 0
  or_zero blocked = pos 0

  abbrev pub measured : Act W ℤ → W → ℤ × W
  measured m w = let (r, t) = m w in (or_zero r, t)

  abbrev pub command_bytes : Option ℤ → W → ℤ × W
  command_bytes none w = (pos 0, w)
  command_bytes (some pid) w = measured (host.resident_bytes pid) w

  abbrev pub process_bytes : Option TrackedProcess → W → ℤ × W
  process_bytes none w = (pos 0, w)
  process_bytes (some tp) w =
      if tp.container_id == ""
      then command_bytes tp.command w
      else measured (containerd_task_pid host tp.container_id >>= host.resident_bytes) w

  -- memoryUsageBytes
  unfoldable pub memory_usage_bytes : String → State W → ℤ × State W
  memory_usage_bytes key s =
      let (n, w) = process_bytes (lookup key s.runtime.procs) s.world in (n, record s { world = w })
