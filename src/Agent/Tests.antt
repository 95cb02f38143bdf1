-- ===== src/Agent/Tests.antt =====
-- The agent on a machine without containerd, where every command starts.
use nimbuscore.Prelude.{
  In, here, there, Has, subst, ◌↔◌, subst, ◌+◌, leb, pos, String, true, false, List, [], ◌∷◌, none,
  some, lookup, ◌≡◌, refl, arith, add32, insert, if◌then◌else◌, length, has_prefix, strip,
  lookup_or,
}
use nimbuscore.Api.{
  Pod, Service, zero_pod_spec, zero_pod_status, zero_container, phase_succeeded, restart_never,
}
use nimbuscore.Fixtures.{named}
use nimbuscore.Paths.{FilePath, join_all, is_within}
use nimbuscore.Disk.{Disk, directory, file, find, same}
use nimbuscore.Agent.Host.{Reply, done, failed, blocked, Host, list_containerd_task_statuses}
use nimbuscore.Agent.Images.{resolve_image_ref}
use nimbuscore.Agent.Runtime.{
  TrackedProcess, State, ExitEvent, new_process_runtime, fresh, has, restart_count,
}
use nimbuscore.Agent.Runtime.Exits.{exited_capacity, check_each, check_containerd_exits}
use nimbuscore.Agent.Runtime.Exits.Laws.{
  check_each-three, reports_of_three, check_containerd_exits_lem,
}
use nimbuscore.Agent.NodePorts
use nimbuscore.Agent.NodePorts.{port_at, desired_ports}
use nimbuscore.Agent.NodePorts.Proxies.{targeted}
use nimbuscore.Agent.NodePorts.Wants.{LeadsTo}
use nimbuscore.Agent.NodePorts.Laws.{reconcile-forwards}
use nimbuscore.Agent.Files.{resolve_volume_path, write_files}
use nimbuscore.Disk.Links.{HasNoLinks}
use nimbuscore.Agent.Files.Laws.{write_files-confined}
use nimbuscore.Agent.Loop.{desired_pods, is_desired, handle_exit, reconcile}
use nimbuscore.Agent.Loop.Assigned.{IsAssigned}
use nimbuscore.Agent.Loop.Laws.{IsCommand, reconcile-has}
use nimbuscore.Agent.Loop.Exit.{IsRestarted, handle_exit-policy}

docker_library : resolve_image_ref "nginx" ≡ "docker.io/library/nginx:latest"
unfolding resolve_image_ref has_prefix strip
docker_library = refl

with_port : resolve_image_ref "registry.local:5000/app" ≡ "registry.local:5000/app:latest"
unfolding resolve_image_ref has_prefix strip
with_port = refl

with_owner : resolve_image_ref "team/app:v2" ≡ "docker.io/team/app:v2"
unfolding resolve_image_ref has_prefix strip
with_owner = refl

-- The world is the list of pods that the control plane has for the node.
abbrev World : Type 0
World = List Pod

abbrev unavailable : {A : Type 0} → World → Reply A × World
unavailable w = (failed "unavailable", w)

abbrev host : Host World
host = record {
  connect = λ w. (done tt, w);
  list_tasks = λ w. (done [], w);
  pull = λ ref. unavailable;
  get_image = λ ref. unavailable;
  get_hostname = unavailable;
  sort = λ l. l;
  new_container = λ spec. unavailable;
  new_task = λ id log. unavailable;
  start_task = λ id. unavailable;
  load_container = λ id. unavailable;
  load_task = λ id. unavailable;
  delete_task = λ id w. w;
  delete_container = λ id w. w;
  build_image = λ addr dir log_dir id src. unavailable;
  join = λ l. "";
  temp_dir = "/tmp";
  make_dir = λ dir. unavailable;
  absolute = λ path. unavailable;
  remove_file = λ path w. w;
  start_command = λ args w. (done (pos 7), w);
  kill = λ pid w. w;
  read_file = λ path. unavailable;
  new_wasm = unavailable;
  run_wasm = λ rt b w. w;
  close_wasm = λ rt w. w;
  resident_bytes = λ pid. unavailable;
  list_pods = λ w. (done w, w);
  list_services = λ w. (done [], w);
  update_pod_status = λ namespace name status w. (done tt, w);
  listen = λ port w. (done 3, w);
  close = λ l w. w;
}

-- A job that ended well and is not to run again.
abbrev job : Pod
job = record {
  metadata = named "a" "job";
  spec = record zero_pod_spec {
    containers = record zero_container { command = "true" ∷ [] } ∷ [];
    node_name = "n1";
    restart_policy = restart_never;
  };
  status = record zero_pod_status { phase = phase_succeeded };
}

abbrev idle : State World
idle = record { runtime = new_process_runtime; world = job ∷ [] }

abbrev running : State World
running = record {
  runtime = record new_process_runtime {
    procs = ("a/job", record (fresh job) { command = some (pos 7) }) ∷ [];
  };
  world = job ∷ [];
}

abbrev exit_job : ExitEvent
exit_job = record { key = "a/job"; exit_code = pos 0 }

abbrev tracked_job : TrackedProcess
tracked_job = record (fresh job) { command = some (pos 7) }

handle_exit-policy_example :
    ((has (handle_exit host exit_job running).runtime "a/job" ≡ true)
      ↔ IsRestarted restart_never (pos 0))
    × (restart_count (handle_exit host exit_job running).runtime "a/job" ≡ (
        if has (handle_exit host exit_job running).runtime "a/job"
        then add32 (pos 0) (pos 1)
        else pos 0))
unfolding lookup
handle_exit-policy_example =
    handle_exit-policy host exit_job running tracked_job refl refl refl (refl, refl, refl, refl)
      (λ args w. (pos 7, refl))

abbrev settled : State World
settled = (reconcile host "n1" idle).1

reconciles : reconcile host "n1" idle ≡ (done tt, settled)
unfolding reconcile check_containerd_exits list_containerd_task_statuses
reconciles = refl

lists_job : lookup "a/job" (desired_pods "n1" [] (job ∷ [])) ≡ some job
unfolding desired_pods lookup insert
lists_job = refl

not_listed : is_desired (desired_pods "n1" [] (job ∷ [])) "a/old" ≡ false
unfolding desired_pods lookup insert
not_listed = refl

abbrev container_job : TrackedProcess
container_job = record (fresh job) { container_id = "nimbus-a-job" }

check_each-three_example :
    reports_of_three "a/job" (("a/job", container_job) ∷ []) [] [] [] [] ≡ (0, 0, 1)
unfolding lookup lookup_or
check_each-three_example =
    check_each-three "a/job" container_job (("a/job", container_job) ∷ []) [] [] [] [] (tt, tt) refl
      refl refl

abbrev waiting : State World
waiting = record {
  runtime = record new_process_runtime {
    procs = ("a/job", container_job) ∷ [];
    exited = exit_job ∷ [];
    missing_streaks = ("a/job", 2) ∷ [];
  };
  world = [];
}

check_containerd_exits_example : (check_containerd_exits host waiting).0 ≡ (
    if leb
      (length waiting.runtime.exited
        + length (check_each [] waiting.runtime.procs waiting.runtime.missing_streaks).1)
      exited_capacity
    then done tt
    else blocked)
unfolding list_containerd_task_statuses
check_containerd_exits_example =
    check_containerd_exits_lem host waiting waiting [] refl (omega arith)

abbrev shop_service : Service
shop_service = record {
  metadata = named "a" "shop";
  spec = record { selector = []; port = pos 80; target_port = pos 8080; node_port = pos 30000 };
  endpoints = record { pod_name = "web-0"; node_ip = "10.0.0.1"; node_port = pos 0 } ∷ [];
}

reconcile-forwards_example : LeadsTo "10.0.0.1" (pos 30000) (shop_service ∷ []) (
    targeted
      (port_at (pos 30000) (NodePorts.reconcile host (shop_service ∷ []) "10.0.0.1" ([], [])).0))
reconcile-forwards_example =
    reconcile-forwards host (λ p w. (3, refl)) (shop_service ∷ []) "10.0.0.1" [] [] (pos 30000)

-- A volume of the namespace a, and a file beside it.
abbrev at_path : List String → FilePath
at_path s = record { rooted = true; segments = s }

abbrev other_file : FilePath
other_file = at_path ("v" ∷ "b" ∷ "notes" ∷ [])

abbrev disk : Disk
disk = record {
  entries =
      (at_path ("v" ∷ []), directory)
      ∷ (at_path ("v" ∷ "b" ∷ []), directory)
      ∷ (other_file, file (1 ∷ []))
      ∷ [];
  calls = 0;
  fails = λ _. false;
}

refuses_escape : resolve_volume_path "/v" "a" "vol" "../../b/notes" ≡ none
unfolding resolve_volume_path
refuses_escape = refl

accepts_inner :
    resolve_volume_path "/v" "a" "vol" "x/../y" ≡ some (at_path ("v" ∷ "a" ∷ "vol" ∷ "y" ∷ []))
unfolding resolve_volume_path
accepts_inner = refl

found_other : find other_file disk.entries ≡ some (file (1 ∷ []))
unfolding find same
found_other = refl

is_other : is_within (join_all ("/v" ∷ "a" ∷ "vol" ∷ [])) other_file ≡ false
unfolding is_within join_all
is_other = refl

no_links : HasNoLinks disk.entries
no_links = (refl, (refl, (refl, tt)))

write_files-confined_example :
    find other_file (write_files "/v" "PUT" "a" "vol" "notes" (2 ∷ []) disk).1.entries
    ≡ some (file (1 ∷ []))
write_files-confined_example =
    write_files-confined "/v" "a" "vol" "notes" other_file (file (1 ∷ [])) disk found_other no_links
      is_other "PUT" (2 ∷ [])

listed-IsCommand : (pod : Pod) → In pod (job ∷ []) → IsAssigned "n1" "a/job" pod → IsCommand pod
listed-IsCommand pod (here e) a = subst IsCommand {x = job} e (refl, refl, refl, refl)
listed-IsCommand pod (there i) a = elim i [ ]

-- The job that ended, and is never to run again, runs again.
reconcile-has_example :
    (has settled.runtime "a/job" ≡ true) ↔ Has (IsAssigned "n1" "a/job") (job ∷ [])
reconcile-has_example =
    reconcile-has host "n1" "a/job" idle (job ∷ []) (job ∷ []) (λ args w. (pos 7, refl))
      listed-IsCommand refl reconciles
