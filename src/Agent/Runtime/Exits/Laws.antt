-- ===== src/Agent/Runtime/Exits/Laws.antt =====
-- When an exit is reported, and when the check never comes back.
use mathlib.Core.List.{append-nil, append_assoc}
use nimbuscore.Prelude.{
  ltb→lt, ◌||◌, ℕ, suc, ◌+◌, ◌≤◌, ltb, leb, String, Bool, true, false, List, [], ◌∷◌, ◌++◌, Assoc,
  lookup, lookup_or, insert, remove, Lacks, HasKeysOnce, some, ◌==◌, if◌then◌else◌, length,
  length-append, ◌≡◌, refl, arith, Bool-cases, inl, inr, eq_iff,
}
use nimbuscore.Agent.Host.{done, blocked, Host, list_containerd_task_statuses}
use nimbuscore.Agent.Runtime.{ExitEvent, TrackedProcess, State, on_host}
use nimbuscore.Agent.Runtime.Exits.{
  check_one, check_each, send_all, check_containerd_exits, exited_capacity,
  containerd_missing_confirmations,
}

lookup_or-insert :
    (added wanted : String) (n : ℕ) (m : Assoc ℕ)
    → lookup_or 0 wanted (insert added n m) ≡ (if added == wanted then n else lookup_or 0 wanted m)
unfolding lookup_or insert
lookup_or-insert added wanted n [] = refl
lookup_or-insert added wanted n ((j, k) ∷ m) =
    ground (
      lookup_or-insert added wanted n m,
      eq_iff j wanted,
      eq_iff j added,
      eq_iff added wanted,
      arith,
    )

lookup_or-remove :
    (gone wanted : String) (m : Assoc ℕ)
    → lookup_or 0 wanted (remove gone m) ≡ (if gone == wanted then 0 else lookup_or 0 wanted m)
unfolding lookup_or remove
lookup_or-remove gone wanted [] = ground arith
lookup_or-remove gone wanted ((j, k) ∷ m) =
    ground
      (lookup_or-remove gone wanted m, eq_iff j wanted, eq_iff j gone, eq_iff gone wanted, arith)

-- The exits that are reported for one key.
abbrev pub exits_of : String → List ExitEvent → ℕ
exits_of key [] = 0
exits_of key (ev ∷ evs) = if ev.key == key then suc (exits_of key evs) else exits_of key evs

exits_of-append :
    (key : String) (a b : List ExitEvent) → exits_of key (a ++ b) ≡ exits_of key a + exits_of key b
exits_of-append key [] b = omega arith
exits_of-append key (ev ∷ a) b = ground (arith, exits_of-append key a b)

-- The streak after a list of containerd's that shows the container or does not.
abbrev pub next_streak : Bool → ℕ → ℕ
next_streak true n = 0
next_streak false n = if ltb (suc n) containerd_missing_confirmations then suc n else 0

abbrev pub reports : Bool → ℕ → ℕ
reports true n = 0
reports false n = if ltb (suc n) containerd_missing_confirmations then 0 else 1

check_one_self :
    (statuses : Assoc Bool) (key : String) (tp : TrackedProcess) (m : Assoc ℕ)
    → (tp.container_id == "") ≡ false
    → let (k, out) = check_one statuses key tp m in
      (lookup_or 0 key k
        ≡ next_streak (lookup_or false tp.container_id statuses) (lookup_or 0 key m))
      × (exits_of key out ≡ reports (lookup_or false tp.container_id statuses) (lookup_or 0 key m))
unfolding check_one
check_one_self statuses key tp m c = ground (
  arith,
  lookup_or-insert key key (suc (lookup_or 0 key m)) m,
  lookup_or-remove key key m,
  lookup_or-remove key key (insert key (suc (lookup_or 0 key m)) m),
  (eq_iff key key).1 refl,
)

check_one-other :
    (statuses : Assoc Bool) (key other : String) (tp : TrackedProcess) (m : Assoc ℕ)
    → (other == key) ≡ false
    → let (k, out) = check_one statuses other tp m in
      (lookup_or 0 key k ≡ lookup_or 0 key m) × (exits_of key out ≡ 0)
unfolding check_one
check_one-other statuses key other tp m n = ground (
  arith,
  lookup_or-insert other key (suc (lookup_or 0 other m)) m,
  lookup_or-remove other key m,
  lookup_or-remove other key (insert other (suc (lookup_or 0 other m)) m),
)

check_each-other :
    (statuses : Assoc Bool) (key : String) (l : Assoc TrackedProcess) (m : Assoc ℕ)
    → Lacks key l
    → let (k, out) = check_each statuses l m in
      (lookup_or 0 key k ≡ lookup_or 0 key m) × (exits_of key out ≡ 0)
unfolding check_each
check_each-other statuses key [] m h = (refl, refl)
check_each-other statuses key ((other, tp) ∷ l) m h = ground (
  arith,
  check_one-other statuses key other tp m h.0,
  check_each-other statuses key l (check_one statuses other tp m).0 h.1,
  exits_of-append key (check_one statuses other tp m).1
      (check_each statuses l (check_one statuses other tp m).0).1,
)

-- Of the processes of a runtime, where no key stands twice, each has its own streak and its own exits.
pub check_each_self :
    (statuses : Assoc Bool) (key : String) (tp : TrackedProcess) (l : Assoc TrackedProcess)
    (m : Assoc ℕ)
    → HasKeysOnce l
    → lookup key l ≡ some tp
    → (tp.container_id == "") ≡ false
    → let (k, out) = check_each statuses l m in
      (lookup_or 0 key k
        ≡ next_streak (lookup_or false tp.container_id statuses) (lookup_or 0 key m))
      × (exits_of key out ≡ reports (lookup_or false tp.container_id statuses) (lookup_or 0 key m))
unfolding check_each lookup
check_each_self statuses key tp [] m once at c = ground arith
check_each_self statuses key tp ((other, tp') ∷ l) m once at c = elim (Bool-cases (other == key)) [
  | inl e ↦ ground (
    arith,
    check_one_self statuses other tp' m,
    check_each-other statuses other l (check_one statuses other tp' m).0 once.0,
    exits_of-append other (check_one statuses other tp' m).1
        (check_each statuses l (check_one statuses other tp' m).0).1,
    eq_iff other key,
  )
  | inr n ↦ ground (
    arith,
    check_one-other statuses key other tp' m n,
    check_each_self statuses key tp l (check_one statuses other tp' m).0 once.1,
    exits_of-append key (check_one statuses other tp' m).1
        (check_each statuses l (check_one statuses other tp' m).0).1,
  )
]

-- The reports of three checks in a row.
abbrev pub reports_of_three :
    String → Assoc TrackedProcess → Assoc Bool → Assoc Bool → Assoc Bool → Assoc ℕ → ℕ × ℕ × ℕ
reports_of_three key l a b c m =
    let (m1, out1) = check_each a l m in
    let (m2, out2) = check_each b l m1 in
    let (m3, out3) = check_each c l m2 in (exits_of key out1, exits_of key out2, exits_of key out3)

-- A container that was there at the last check is reported once by the third of the next three checks
-- if all three miss it, and by none of them otherwise: one list or two that leave it out are ignored.
pub check_each-three :
    (key : String) (tp : TrackedProcess) (l : Assoc TrackedProcess) (a b c : Assoc Bool)
    (m : Assoc ℕ)
    → HasKeysOnce l
    → lookup key l ≡ some tp
    → (tp.container_id == "") ≡ false
    → lookup_or 0 key m ≡ 0
    → reports_of_three key l a b c m ≡ (
      0,
      0,
      if (lookup_or false tp.container_id a || lookup_or false tp.container_id b)
            || lookup_or false tp.container_id c
          then 0
          else 1,
    )
check_each-three key tp l a b c m once at container start = ground (
  arith,
  check_each_self a key tp l m once at container,
  check_each_self b key tp l (check_each a l m).0 once at container,
  check_each_self c key tp l (check_each b l (check_each a l m).0).0 once at container,
)

-- All events are sent if the buffer has room for them, and otherwise the sender never comes back.
pub send_all_lem :
    (evs queue : List ExitEvent)
    → length queue ≤ exited_capacity
    → send_all evs queue
      ≡ (if leb (length queue + length evs) exited_capacity then done (queue ++ evs) else blocked)
unfolding send_all
send_all_lem [] queue h = rw (append-nil queue) (ground arith)
send_all_lem (ev ∷ evs) queue h = elim (Bool-cases (ltb (length queue) exited_capacity)) [
  | inl e ↦
      rw
        (
          e,
          send_all_lem evs (queue ++ ev ∷ []) (
              omega
                (arith, length-append queue (ev ∷ []), ltb→lt (length queue) exited_capacity e)),
          length-append queue (ev ∷ []),
          append_assoc queue (ev ∷ []) evs,
        )
        (ground arith)
  | inr e ↦ ground arith
]

-- Once containerd has answered, the check comes back exactly if the channel has room for all the
-- exits that it found. Otherwise it blocks the loop, which is the one that would make room.
pub check_containerd_exits_lem :
    {W : Type 0} (host : Host W) (s t : State W) (statuses : Assoc Bool)
    → on_host (list_containerd_task_statuses host) s ≡ (done statuses, t)
    → length t.runtime.exited ≤ exited_capacity
    → (check_containerd_exits host s).0 ≡ (
        if leb
          (length t.runtime.exited
            + length (check_each statuses t.runtime.procs t.runtime.missing_streaks).1)
          exited_capacity
        then done tt
        else blocked)
unfolding check_containerd_exits
check_containerd_exits_lem host s t statuses listed room = ground (
  arith,
  send_all_lem (check_each statuses t.runtime.procs t.runtime.missing_streaks).1 t.runtime.exited
      room,
)
