-- ===== src/Agent/Loop/Exit.antt =====
-- What becomes of a pod whose command exits.
use nimbuscore.Prelude.{
  ◌≢◌, ◌↔◌, eq_ℤ, eq_ℤ_iff, subst, ℤ, pos, add32, String, true, false, List, none, some, lookup,
  lookup-insert, lookup-remove, ◌==◌, eq_refl, if◌then◌else◌, ◌≡◌, refl, sym, ap, ◌∙◌, arith,
  Bool-cases, inl, inr,
}
use nimbuscore.Api.{
  Pod, RestartPolicy, restart_unspecified, restart_always, restart_on_failure, restart_never,
}
use nimbuscore.Agent.Host.{Reply, done, failed, blocked, Host}
use nimbuscore.Agent.Runtime.{
  ProcessRuntime, ExitEvent, TrackedProcess, State, pod_key, has, is_there, restart_count,
  restarts_of, fresh, bump, start, start_process, restart, stop, still_running, first_container,
}
use nimbuscore.Agent.Loop.{should_restart, terminal_phase, reported, restarted_pod, handle_exit}
use nimbuscore.Agent.Loop.Growth.{report_status-runtime}
use nimbuscore.Agent.Loop.Laws.{IsCommand}

-- The exits after which a pod is restarted.
pub data IsRestarted : RestartPolicy → ℤ → Type 0 where
  unspecified : {code : ℤ} → IsRestarted restart_unspecified code
  always : {code : ℤ} → IsRestarted restart_always code
  after_failure : {code : ℤ} → code ≢ pos 0 → IsRestarted restart_on_failure code

not_after_success : IsRestarted restart_on_failure (pos 0) → ⊥
not_after_success (after_failure n) = n refl

should_restart_iff :
    (policy : RestartPolicy) (code : ℤ)
    → (should_restart policy code ≡ true) ↔ IsRestarted policy code
should_restart_iff restart_unspecified code = (λ h. unspecified, λ r. refl)
should_restart_iff restart_always code = (λ h. always, λ r. refl)
should_restart_iff restart_on_failure code = (
  λ h. after_failure (λ e. ground (arith, (eq_ℤ_iff code (pos 0)).1 e)),
  λ r. elim (Bool-cases (eq_ℤ code (pos 0))) [
    | inl e ↦
        absurd (
          not_after_success
            (subst (IsRestarted restart_on_failure) ((eq_ℤ_iff code (pos 0)).0 e) r))
    | inr e ↦ rw e refl
  ],
)
should_restart_iff restart_never code = (λ h. absurd (ground arith), λ r. elim r [ ])

command_put_down :
    {W : Type 0} (host : Host W) (pod : Pod) (u : State W) (pid : ℤ)
    → IsCommand pod
    → (host.start_command (first_container pod).command u.world).0 ≡ done pid
    → ((start host pod u).0 ≡ done tt)
      × (lookup (pod_key pod) (start host pod u).1.runtime.procs
          ≡ some (record (fresh pod) {
            command = some pid;
            restarts = restart_count u.runtime (pod_key pod);
          }))
unfolding start start_process
command_put_down host pod u pid (wasm, image, build, args) e = ground (
  arith,
  lookup-insert (pod_key pod) (pod_key pod)
      (record (fresh pod) { command = some pid; restarts = restart_count u.runtime (pod_key pod) })
      u.runtime.procs,
  eq_refl (pod_key pod),
)

bump-restart_count :
    {W : Type 0} (host : Host W) (tp : TrackedProcess) (key : String) (r : ProcessRuntime)
    → restart_count (bump host (some tp) key r) key ≡ add32 tp.restarts (pos 1)
bump-restart_count host tp key r = ground (
  arith,
  lookup-insert key key (record tp { restarts = add32 tp.restarts (pos 1) }) r.procs,
  eq_refl key,
)

module _ {W : Type 0} (host : Host W) (ev : ExitEvent) (s : State W) (tp : TrackedProcess)
    (at : lookup ev.key s.runtime.procs ≡ some tp) (no_container : (tp.container_id == "") ≡ true)
    (own : pod_key tp.pod ≡ ev.key) (command : IsCommand tp.pod)
    (starts : (args : List String) (w : W)
      → (pid : ℤ) × ((host.start_command args w).0 ≡ done pid)) where
  restart_lem :
      ((restart host tp.pod s).0 ≡ done tt)
      × (has (restart host tp.pod s).1.runtime ev.key ≡ true)
      × (restart_count (restart host tp.pod s).1.runtime ev.key ≡ add32 tp.restarts (pos 1))
  unfolding restart
  restart_lem =
      let r = bump host (lookup (pod_key tp.pod) s.runtime.procs) (pod_key tp.pod) s.runtime in
      let u : State W = record { runtime = r; world = s.world } in
      let (pid, e) = starts (first_container tp.pod).command u.world in
      let put = command_put_down host tp.pod u pid command e in
      let at_pod = ap (λ k. lookup k s.runtime.procs) own ∙ at in
      let counted =
        ap (λ o. restart_count (bump host o (pod_key tp.pod) s.runtime) (pod_key tp.pod)) at_pod
        ∙ bump-restart_count host tp (pod_key tp.pod) s.runtime in
      let found = ap (λ k. lookup k (start host tp.pod u).1.runtime.procs) (sym own) ∙ put.1 in
      (put.0, ap is_there found, ap restarts_of found ∙ counted)

  not_running : still_running host ev.key s ≡ (false, s)
  unfolding still_running
  not_running = rw at (ground arith)

  restarted-runtime :
      (r : Reply (Unit {0})) (t : State W)
      → (restarted_pod host tp.pod ev.key r t).runtime ≡ t.runtime
  restarted-runtime (done u) t = report_status-runtime ev.key host tp.pod _ t
  restarted-runtime (failed e) t = report_status-runtime ev.key host tp.pod _ t
  restarted-runtime blocked t = refl

  stopped : lookup ev.key (stop host ev.key s).runtime.procs ≡ none
  unfolding stop
  stopped = lookup-remove ev.key ev.key s.runtime.procs ∙ ground (arith, eq_refl ev.key)

  handled :
      (has (handle_exit host ev s).runtime ev.key
        ≡ should_restart tp.pod.spec.restart_policy ev.exit_code)
      × (restart_count (handle_exit host ev s).runtime ev.key ≡ (
          if should_restart tp.pod.spec.restart_policy ev.exit_code
          then add32 tp.restarts (pos 1)
          else pos 0))
  unfolding handle_exit
  handled = elim (Bool-cases (should_restart tp.pod.spec.restart_policy ev.exit_code)) [
    | inl e ↦
        let t = restart host tp.pod s in
        let kept = restarted-runtime t.0 t.1 in
        rw (at, not_running, e)
          (
            ap (λ r. has r ev.key) kept ∙ restart_lem.1,
            ap (λ r. restart_count r ev.key) kept ∙ restart_lem.2,
          )
    | inr e ↦
        let kept =
          report_status-runtime ev.key host tp.pod
            (reported host (terminal_phase ev.exit_code) "" (pos 0) (pos 0)) (stop host ev.key s) in
        rw (at, not_running, e)
          (
            ap (λ r. has r ev.key) kept ∙ ap is_there stopped,
            ap (λ r. restart_count r ev.key) kept ∙ ap restarts_of stopped,
          )
  ]

  -- Where commands can be started, a pod whose command exits stays tracked exactly if its restart policy is
  -- always or unspecified, or is on-failure and the exit code is not 0. Its restart count is then one
  -- more, on int32; otherwise the pod is no longer tracked, and its count is 0.
  pub handle_exit-policy :
      ((has (handle_exit host ev s).runtime ev.key ≡ true)
        ↔ IsRestarted tp.pod.spec.restart_policy ev.exit_code)
      × (restart_count (handle_exit host ev s).runtime ev.key ≡ (
          if has (handle_exit host ev s).runtime ev.key then add32 tp.restarts (pos 1) else pos 0))
  handle_exit-policy =
      let policy = should_restart_iff tp.pod.spec.restart_policy ev.exit_code in
      (
        (λ h. policy.0 (sym handled.0 ∙ h), λ r. handled.0 ∙ policy.1 r),
        handled.1 ∙ ap (λ b. if b then add32 tp.restarts (pos 1) else pos 0) (sym handled.0),
      )
