-- ===== src/Agent/Runtime/Exits.antt =====
-- `checkContainerdExits` of internal/agent/process.go: a container is taken as exited once it is missing
-- in as many lists of containerd's as `containerd_missing_confirmations` says, one after another.
pub mod Laws
use nimbuscore.Prelude.{
  ℕ, suc, ltb, negsuc, String, false, List, [], ◌∷◌, ◌++◌, Assoc, lookup_or, insert, remove, Bool,
  ◌==◌, if◌then◌else◌, length,
}
use nimbuscore.Agent.Host.{
  Reply, done, failed, blocked, Host, Act, give, ◌>>=◌, list_containerd_task_statuses,
}
use nimbuscore.Agent.Runtime.{ExitEvent, TrackedProcess, ProcessRuntime, State, on_host}

abbrev pub containerd_missing_confirmations : ℕ
containerd_missing_confirmations = 3

-- The buffer of the channel of exits.
abbrev pub exited_capacity : ℕ
exited_capacity = 32

-- One process: the streaks after it, and its event.
unfoldable pub check_one : Assoc Bool → String → TrackedProcess → Assoc ℕ → Assoc ℕ × List ExitEvent
check_one statuses key tp m =
    if tp.container_id == ""
    then (m, [])
    else if lookup_or false tp.container_id statuses
    then (remove key m, [])
    else (let n = suc (lookup_or 0 key m) in
        if ltb n containerd_missing_confirmations
        then (insert key n m, [])
        else (remove key (insert key n m), record { key = key; exit_code = negsuc 0 } ∷ []))

-- The loop over the processes.
unfoldable pub check_each : Assoc Bool → Assoc TrackedProcess → Assoc ℕ → Assoc ℕ × List ExitEvent
unfolding check_one
check_each statuses [] m = (m, [])
check_each statuses ((key, tp) ∷ l) m =
    let (k, out) = check_one statuses key tp m in
    let (j, rest) = check_each statuses l k in (j, out ++ rest)

-- Sending to the channel blocks when its buffer is full. Only the loop that sends here receives.
unfoldable pub send_all : List ExitEvent → List ExitEvent → Reply (List ExitEvent)
send_all [] queue = done queue
send_all (ev ∷ evs) queue =
    let rest = send_all evs (queue ++ ev ∷ []) in
    if ltb (length queue) exited_capacity then rest else blocked

abbrev pub sent : {W : Type 0} → Reply (List ExitEvent) → State W → Reply (Unit {0}) × State W
sent (done queue) s = (done tt, record s { runtime = record s.runtime { exited = queue } })
sent (failed e) s = (failed e, s)
sent blocked s = (blocked, s)

abbrev pub checked : {W : Type 0} → Assoc Bool → Act (State W) (Unit {0})
checked statuses s =
    let (m, exits) = check_each statuses s.runtime.procs s.runtime.missing_streaks in
    sent (send_all exits s.runtime.exited)
      (record s { runtime = record s.runtime { missing_streaks = m } })

abbrev pub checked_list : {W : Type 0} → Reply (Assoc Bool) → Act (State W) (Unit {0})
checked_list (done statuses) s = checked statuses s
checked_list (failed e) s = (done tt, s)
checked_list blocked s = (blocked, s)

-- checkContainerdExits
unfoldable pub check_containerd_exits : {W : Type 0} → Host W → Act (State W) (Unit {0})
unfolding check_each send_all
check_containerd_exits host s =
    let (r, t) = on_host (list_containerd_task_statuses host) s in checked_list r t
