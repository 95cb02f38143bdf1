-- ===== src/Agent/Loop/Laws.antt =====
-- What a reconciliation leaves running.
use nimbuscore.Prelude.{
  Has, ◌↔◌, ℤ, String, true, false, List, [], ◌∷◌, map, Option, none, some, Assoc, lookup,
  lookup-insert, lookup-remove, ◌==◌, eq_iff, eq_refl, if◌then◌else◌, ◌≡◌, refl, sym, ap, ◌∙◌,
  subst, arith, Bool-cases, inl, inr, ◌⊎◌, In, here, there, is_empty,
}
use nimbuscore.Api.{Pod}
use nimbuscore.Agent.Host.{done, Host}
use nimbuscore.Agent.Runtime.{
  TrackedProcess, State, pod_key, has, is_there, keys, pod_of, fresh, start, start_process, stop,
  first_container, adopt_if_running, memory_usage_bytes, restart_count,
}
use nimbuscore.Agent.Runtime.Exits.{check_containerd_exits}
use nimbuscore.Agent.Loop.{
  desired_pods, start_pod, reconcile_orphan_containers, ensured, start_missing, is_desired,
  stop_others, reported_running, report_each, settle, reconcile,
}
use nimbuscore.Agent.Loop.Growth.{report_status-runtime, started_pod-runtime, start_missing-Holds}
use nimbuscore.Agent.Loop.Assigned.{IsAssigned, lookup-desired_pods, In-Has}

-- The pod runs a command of its own: no WebAssembly module, no image and no build.
abbrev pub IsCommand : Pod → Type 0
IsCommand pod =
    (((first_container pod).wasm_module_path == "") ≡ true)
    × (((first_container pod).image == "") ≡ true)
    × ((first_container pod).build_source ≡ none)
    × (is_empty (first_container pod).command ≡ false)

module _ {W : Type 0} (host : Host W) where
  memory-runtime :
      (key : String) (s : State W) → (memory_usage_bytes host key s).1.runtime ≡ s.runtime
  unfolding memory_usage_bytes
  memory-runtime key s = refl

  reported-runtime :
      (key : String) (o : Option Pod) (s : State W)
      → (reported_running host key o s).runtime ≡ s.runtime
  reported-runtime key none s = refl
  reported-runtime key (some pod) s =
      report_status-runtime key host pod _ (memory_usage_bytes host key s).1 ∙ memory-runtime key s

  report_each-runtime :
      (ks : List String) (s : State W) → (report_each host ks s).runtime ≡ s.runtime
  unfolding report_each
  report_each-runtime [] s = refl
  report_each-runtime (key ∷ ks) s =
      report_each-runtime ks (reported_running host key (pod_of s.runtime key) s)
      ∙ reported-runtime key (pod_of s.runtime key) s

  stop-lookup :
      (gone key : String) (s : State W)
      → lookup key (stop host gone s).runtime.procs
        ≡ (if gone == key then none else lookup key s.runtime.procs)
  unfolding stop
  stop-lookup gone key s = lookup-remove gone key s.runtime.procs

  -- One key of the loop, whichever way its test goes.
  after_test :
      (desired : Assoc Pod) (k : String) (ks : List String) (s : State W) (P : State W → Type 0)
      → (is_desired desired k ≡ true → P (stop_others host desired ks s))
      → (is_desired desired k ≡ false → P (stop_others host desired ks (stop host k s)))
      → P (stop_others host desired (k ∷ ks) s)
  unfolding stop_others
  after_test desired k ks s P yes_desired not_desired = elim (Bool-cases (is_desired desired k)) [
    | inl e ↦
        subst (λ b. P (stop_others host desired ks (if b then s else stop host k s))) (sym e)
          (yes_desired e)
    | inr e ↦
        subst (λ b. P (stop_others host desired ks (if b then s else stop host k s))) (sym e)
          (not_desired e)
  ]

  stop_others-keeps :
      (desired : Assoc Pod) (key : String) (ks : List String) (s : State W)
      → is_desired desired key ≡ true
      → lookup key (stop_others host desired ks s).runtime.procs ≡ lookup key s.runtime.procs
  unfolding stop_others
  stop_others-keeps desired key [] s h = refl
  stop_others-keeps desired key (k ∷ ks) s h =
      after_test desired k ks s (λ t. lookup key t.runtime.procs ≡ lookup key s.runtime.procs)
        (λ e. stop_others-keeps desired key ks s h)
        (λ e.
          stop_others-keeps desired key ks (stop host k s) h
          ∙ ground (arith, stop-lookup k key s, eq_iff k key))

  stop_others-drops :
      (desired : Assoc Pod) (key : String) (ks : List String) (s : State W)
      → is_desired desired key ≡ false
      → In key ks ⊎ (lookup key s.runtime.procs ≡ none)
      → lookup key (stop_others host desired ks s).runtime.procs ≡ none
  unfolding stop_others
  stop_others-drops desired key [] s h (inl m) = elim m [ ]
  stop_others-drops desired key [] s h (inr e) = e
  stop_others-drops desired key (k ∷ ks) s h (inl (here e)) =
      after_test desired k ks s (λ t. lookup key t.runtime.procs ≡ none)
        (λ f. ground (arith, e, ap (is_desired desired) e))
        (λ f.
          stop_others-drops desired key ks (stop host k s) h
            (inr (stop-lookup k key s ∙ ground (arith, (eq_iff k key).1 e))))
  stop_others-drops desired key (k ∷ ks) s h (inl (there m)) =
      after_test desired k ks s (λ t. lookup key t.runtime.procs ≡ none)
        (λ f. stop_others-drops desired key ks s h (inl m))
        (λ f. stop_others-drops desired key ks (stop host k s) h (inl m))
  stop_others-drops desired key (k ∷ ks) s h (inr n) =
      after_test desired k ks s (λ t. lookup key t.runtime.procs ≡ none)
        (λ f. stop_others-drops desired key ks s h (inr n))
        (λ f.
          stop_others-drops desired key ks (stop host k s) h
            (inr (stop-lookup k key s ∙ ground arith)))

  tracked_or_not :
      (key : String) (m : Assoc TrackedProcess) → In key (map (λ e. e.0) m) ⊎ (lookup key m ≡ none)
  unfolding lookup
  tracked_or_not key [] = inr refl
  tracked_or_not key ((k, tp) ∷ m) = elim (Bool-cases (k == key)) [
    | inl e ↦ inl (here ((eq_iff k key).0 e))
    | inr e ↦ elim (tracked_or_not key m) [ inl i ↦ inl (there i) | inr n ↦ inr (rw e n) ]
  ]

  command_starts :
      (pod : Pod) (s : State W)
      → IsCommand pod
      → (starts : (args : List String) (w : W)
          → (pid : ℤ) × ((host.start_command args w).0 ≡ done pid))
      → has (start host pod s).1.runtime (pod_key pod) ≡ true
  unfolding start start_process
  command_starts pod s (wasm, image, build, args) starts =
      let (pid, e) = starts (first_container pod).command s.world in
      ground (
        arith,
        lookup-insert (pod_key pod) (pod_key pod)
            (record (fresh pod) {
              command = some pid;
              restarts = restart_count s.runtime (pod_key pod);
            })
            s.runtime.procs,
        eq_refl (pod_key pod),
      )

  module _ (pod : Pod) (command : IsCommand pod)
      (starts : (args : List String) (w : W)
        → (pid : ℤ) × ((host.start_command args w).0 ≡ done pid)) where
    not_adopted : (s : State W) → adopt_if_running host pod s ≡ (false, s)
    unfolding adopt_if_running
    not_adopted s = ground arith

    start_pod-has : (s : State W) → has (start_pod host pod s).runtime (pod_key pod) ≡ true
    unfolding start_pod
    start_pod-has s =
        subst (λ r. has r (pod_key pod) ≡ true)
          (sym
            (started_pod-runtime (pod_key pod) host pod (start host pod s).0 (start host pod s).1))
          (command_starts pod s command starts)

    ensured-has :
        (s : State W) → has (ensured host (pod_key pod) pod s).runtime (pod_key pod) ≡ true
    ensured-has s = elim (Bool-cases (has s.runtime (pod_key pod))) [
      | inl e ↦ rw e e
      | inr e ↦ rw (e, not_adopted s) (start_pod-has s)
    ]

    start_missing-has :
        (m : Assoc Pod) (s : State W)
        → lookup (pod_key pod) m ≡ some pod
        → has (start_missing host m s).runtime (pod_key pod) ≡ true
    unfolding start_missing lookup
    start_missing-has [] s h = ground arith
    start_missing-has ((k, p) ∷ m) s h = elim (Bool-cases (k == pod_key pod)) [
      | inl e ↦ start_missing-Holds (pod_key pod) host m (ensured host k p s) (
          subst (λ q. has (ensured host k q s).runtime (pod_key pod) ≡ true) (sym (ground arith))
            (subst (λ j. has (ensured host j pod s).runtime (pod_key pod) ≡ true)
              (sym ((eq_iff k (pod_key pod)).0 e)) (ensured-has s)))
      | inr e ↦ start_missing-has m (ensured host k p s) (rw e at h)
    ]

    settle-has :
        (desired : Assoc Pod) (s : State W)
        → lookup (pod_key pod) desired ≡ some pod
        → has (settle host desired s).runtime (pod_key pod) ≡ true
    unfolding settle
    settle-has desired s h =
        let t = start_missing host desired (reconcile_orphan_containers host desired s) in
        let u = stop_others host desired (keys t.runtime) t in
        ap (λ r. has r (pod_key pod)) (report_each-runtime (keys u.runtime) u)
        ∙ ap is_there (stop_others-keeps desired (pod_key pod) (keys t.runtime) t (ap is_there h))
        ∙ start_missing-has desired (reconcile_orphan_containers host desired s) h

  settle-drops :
      (desired : Assoc Pod) (key : String) (s : State W)
      → is_desired desired key ≡ false
      → has (settle host desired s).runtime key ≡ false
  unfolding settle
  settle-drops desired key s h =
      let t = start_missing host desired (reconcile_orphan_containers host desired s) in
      let u = stop_others host desired (keys t.runtime) t in
      ap (λ r. has r key) (report_each-runtime (keys u.runtime) u)
      ∙ ap is_there
          (stop_others-drops desired key (keys t.runtime) t h (tracked_or_not key t.runtime.procs))

  -- A reconciliation that comes to its end after a list of the pods settles the node by that list.
  reconcile_inv :
      (node_name : String) (s : State W) {t : State W} (pods : List Pod) (w : W)
      → host.list_pods s.world ≡ (done pods, w)
      → reconcile host node_name s ≡ (done tt, t)
      → t
        ≡ settle host
            (desired_pods node_name [] pods)
            (check_containerd_exits host (record s { world = w })).1
  unfolding reconcile
  reconcile_inv node_name s pods w listed e = ground arith

  -- When a reconciliation comes to its end, no pod is kept that the control plane does not list for the
  -- node.
  pub reconcile-stops :
      (node_name key : String) (s : State W) {t : State W} (pods : List Pod) (w : W)
      → host.list_pods s.world ≡ (done pods, w)
      → reconcile host node_name s ≡ (done tt, t)
      → is_desired (desired_pods node_name [] pods) key ≡ false
      → has t.runtime key ≡ false
  reconcile-stops node_name key s pods w listed e h =
      ap (λ (u : State W). has u.runtime key) (reconcile_inv node_name s pods w listed e)
      ∙ settle-drops (desired_pods node_name [] pods) key
          (check_containerd_exits host (record s { world = w })).1 h

  -- And where commands can be started, every listed pod of the node that runs a command is
  -- tracked, whatever its phase and its restart policy are.
  pub reconcile-runs :
      (node_name : String) (pod : Pod) (s : State W) {t : State W} (pods : List Pod) (w : W)
      → IsCommand pod
      → ((args : List String) (v : W) → (pid : ℤ) × ((host.start_command args v).0 ≡ done pid))
      → host.list_pods s.world ≡ (done pods, w)
      → reconcile host node_name s ≡ (done tt, t)
      → lookup (pod_key pod) (desired_pods node_name [] pods) ≡ some pod
      → has t.runtime (pod_key pod) ≡ true
  reconcile-runs node_name pod s pods w command starts listed e h =
      ap (λ (u : State W). has u.runtime (pod_key pod)) (reconcile_inv node_name s pods w listed e)
      ∙ settle-has pod command starts (desired_pods node_name [] pods)
          (check_containerd_exits host (record s { world = w })).1 h

  -- Where commands can be started, a reconciliation that comes to its end after a list of the pods tracks
  -- a key exactly if one of the pods listed is assigned to the node and has this key, provided that the
  -- pods of this kind run commands: whatever the phase and the restart policy of such a pod are, it is
  -- tracked, and nothing else is.
  pub reconcile-has :
      (node_name key : String) (s : State W) {t : State W} (pods : List Pod) (w : W)
      → ((args : List String) (v : W) → (pid : ℤ) × ((host.start_command args v).0 ≡ done pid))
      → ((pod : Pod) → In pod pods → IsAssigned node_name key pod → IsCommand pod)
      → host.list_pods s.world ≡ (done pods, w)
      → reconcile host node_name s ≡ (done tt, t)
      → (has t.runtime key ≡ true) ↔ Has (IsAssigned node_name key) pods
  unfolding lookup
  reconcile-has node_name key s {t = t} pods w starts commands listed e =
      elim (lookup-desired_pods node_name key [] pods) [
        | inl (unlisted, n) ↦ (
          λ h.
              absurd (
                ground (arith, h, reconcile-stops node_name key s pods w listed e (ap is_there n))),
          λ h. absurd (unlisted h),
        )
        | inr (pod, at, i, a) ↦ (
          λ h. In-Has node_name key i a,
          λ h.
              ap (λ k. has t.runtime k) (sym a.1)
              ∙ reconcile-runs node_name pod s pods w (commands pod i a) starts listed e
                  (ap (λ k. lookup k (desired_pods node_name [] pods)) a.1 ∙ at),
        )
      ]
