-- ===== src/Agent/Loop/Growth.antt =====
-- Starting the pods that are missing takes no other process away.
use Prim.Native.String.{◌++◌}
use nimbuscore.Prelude.{
  ℕ, String, Bool, true, false, not, List, [], ◌∷◌, some, Assoc, lookup, lookup_or, insert,
  lookup-insert, ◌==◌, ◌≡◌, refl, sym, subst, arith, Bool-cases, inl, inr, is_empty,
}
use nimbuscore.Api.{Pod, PodStatus}
use nimbuscore.Agent.Host.{
  Reply, done, failed, blocked, Host, Act, ◌>>=◌, follow, wrapping, list_containerd_task_statuses,
}
use nimbuscore.Agent.Runtime.{
  TrackedProcess, State, pod_key, has, is_there, on_host, set_runtime, tracked, start,
  start_containerd, start_process, start_wasm, first_container, is_containerd, adopt_if_running,
  adopted, run_module, run_bytes, fresh, launch, container_name,
}
use nimbuscore.Agent.Loop.{
  report_status, start_pod, started_pod, unless_adopted, ensured, start_missing,
}

has-insert :
    (key other : String) (tp : TrackedProcess) (m : Assoc TrackedProcess)
    → is_there (lookup key m) ≡ true
    → is_there (lookup key (insert other tp m)) ≡ true
has-insert key other tp m h = ground (arith, lookup-insert other key tp m)

module _ {W : Type 0} (key : String) where
  -- The key is put down.
  abbrev pub Holds : State W → Type 0
  Holds s = has s.runtime key ≡ true

  -- An action that puts down processes and takes none away.
  abbrev Grows : {A : Type 0} → Act (State W) A → Type 0
  Grows m = (s : State W) → Holds s → Holds (m s).1

  follow-Grows :
      {A B : Type 0} (r : Reply A) (f : A → Act (State W) B)
      → ((a : A) → Grows (f a))
      → Grows (follow r f)
  follow-Grows (done a) f g s h = g a s h
  follow-Grows (failed e) f g s h = h
  follow-Grows blocked f g s h = h

  bind-Grows :
      {A B : Type 0} (m : Act (State W) A) (f : A → Act (State W) B)
      → Grows m
      → ((a : A) → Grows (f a))
      → Grows (m >>= f)
  bind-Grows m f g k s h = follow-Grows (m s).0 f k (m s).1 (g s h)

  on_host-Grows : {A : Type 0} (m : Act W A) → Grows (on_host m)
  on_host-Grows m s h = h

  tracked-Grows : (tp : TrackedProcess) → Grows (set_runtime (tracked tp))
  tracked-Grows tp s h = has-insert key (pod_key tp.pod) _ s.runtime.procs h

  bind_host-Grows :
      {A B : Type 0} (m : Act W A) (f : A → Act (State W) B)
      → ((a : A) → Grows (f a))
      → Grows (on_host m >>= f)
  bind_host-Grows m f g s h = bind-Grows (on_host m) f (on_host-Grows m) g s h

  module _ (host : Host W) where
    start_containerd-Grows : (pod : Pod) → Grows (start_containerd host pod)
    unfolding start_containerd
    start_containerd-Grows pod s h =
        follow-Grows (on_host (launch host s.runtime pod) s).0 _
          (λ u. tracked-Grows (record (fresh pod) { container_id = container_name pod }))
          (on_host (launch host s.runtime pod) s).1 h

    start_process-Grows : (pod : Pod) → Grows (start_process host pod)
    unfolding start_process
    start_process-Grows pod s h = elim (Bool-cases (is_empty (first_container pod).command)) [
      | inl e ↦ rw e h
      | inr e ↦ rw e (
          bind_host-Grows (host.start_command (first_container pod).command) _
            (λ pid. tracked-Grows (record (fresh pod) { command = some pid })) s h)
    ]

    run_module-Grows : (pod : Pod) (bytes : List ℕ) (rt : ℕ) → Grows (run_module host pod bytes rt)
    run_module-Grows pod bytes rt s h =
        tracked-Grows (record (fresh pod) { wasm_runtime = some rt }) s h

    run_bytes-Grows :
        (pod : Pod) (path : String) (bytes : List ℕ) → Grows (run_bytes host pod path bytes)
    run_bytes-Grows pod path bytes =
        bind_host-Grows (wrapping ("agent: init wasm runtime for " ++ path) host.new_wasm)
          (run_module host pod bytes) (run_module-Grows pod bytes)

    start_wasm-Grows : (pod : Pod) (path : String) → Grows (start_wasm host pod path)
    unfolding start_wasm
    start_wasm-Grows pod path =
        bind_host-Grows (wrapping ("agent: read wasm module " ++ path) (host.read_file path))
          (run_bytes host pod path) (run_bytes-Grows pod path)

    start-Grows : (pod : Pod) → Grows (start host pod)
    unfolding start
    start-Grows pod s h = elim (Bool-cases (not ((first_container pod).wasm_module_path == ""))) [
      | inl e ↦ rw e (start_wasm-Grows pod (first_container pod).wasm_module_path s h)
      | inr e ↦ elim (Bool-cases (is_containerd host pod)) [
        | inl f ↦ rw (e, f) (start_containerd-Grows pod s h)
        | inr f ↦ rw (e, f) (start_process-Grows pod s h)
      ]
    ]

    pub report_status-runtime :
        (pod : Pod) (status : PodStatus) (s : State W)
        → (report_status host pod status s).runtime ≡ s.runtime
    unfolding report_status
    report_status-runtime pod status s = refl

    pub started_pod-runtime :
        (pod : Pod) (r : Reply (Unit {0})) (s : State W)
        → (started_pod host pod r s).runtime ≡ s.runtime
    started_pod-runtime pod (done u) s = report_status-runtime pod _ s
    started_pod-runtime pod (failed e) s = report_status-runtime pod _ s
    started_pod-runtime pod blocked s = refl

    start_pod-Holds : (pod : Pod) (s : State W) → Holds s → Holds (start_pod host pod s)
    unfolding start_pod
    start_pod-Holds pod s h =
        subst (λ r. has r key ≡ true)
          (sym (started_pod-runtime pod (start host pod s).0 (start host pod s).1))
          (start-Grows pod s h)

    adopted-Holds :
        (pod : Pod) (r : Reply (Assoc Bool)) (s : State W)
        → Holds s
        → Holds (adopted host pod r s).1
    adopted-Holds pod (failed e) s h = h
    adopted-Holds pod blocked s h = h
    adopted-Holds pod (done statuses) s h =
        elim (Bool-cases (lookup_or false (container_name pod) statuses)) [
          | inl e ↦ rw e (has-insert key (pod_key pod) _ s.runtime.procs h)
          | inr e ↦ rw e h
        ]

    adopt-Holds : (pod : Pod) (s : State W) → Holds s → Holds (adopt_if_running host pod s).1
    unfolding adopt_if_running
    adopt-Holds pod s h = elim (Bool-cases (is_containerd host pod)) [
      | inl e ↦ rw e (
          adopted-Holds pod (on_host (list_containerd_task_statuses host) s).0
            (on_host (list_containerd_task_statuses host) s).1 h)
      | inr e ↦ rw e h
    ]

    unless_adopted-Holds :
        (pod : Pod) (b : Bool) (s : State W) → Holds s → Holds (unless_adopted host pod (b, s))
    unless_adopted-Holds pod true s h = h
    unless_adopted-Holds pod false s h = start_pod-Holds pod s h

    pub ensured-Holds :
        (k : String) (pod : Pod) (s : State W) → Holds s → Holds (ensured host k pod s)
    ensured-Holds k pod s h = elim (Bool-cases (has s.runtime k)) [
      | inl e ↦ rw e h
      | inr e ↦ rw e (
          unless_adopted-Holds pod (adopt_if_running host pod s).0 (adopt_if_running host pod s).1
            (adopt-Holds pod s h))
    ]

    pub start_missing-Holds :
        (m : Assoc Pod) (s : State W) → Holds s → Holds (start_missing host m s)
    unfolding start_missing
    start_missing-Holds [] s h = h
    start_missing-Holds ((k, pod) ∷ m) s h =
        start_missing-Holds m (ensured host k pod s) (ensured-Holds k pod s h)
