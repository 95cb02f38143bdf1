-- ===== src/Scheduler.antt =====
-- internal/scheduler/scheduler.go: the choice of a node for a pod. `ErrNoNodeAvailable` is `none`.
pub mod Best
pub mod Fit
mod Tests
use nimbuscore.Prelude.{
  String, ℤ, pos, negsuc, ltb_ℤ, leb_ℤ, eq_ℤ, add64, sub64, Bool, true, false, ◌&&◌, ◌||◌, not,
  List, [], ◌∷◌, Option, none, some, Assoc, lookup_or, all, any, if◌then◌else◌,
}

-- `used_ports` holds the keys of the map whose value is true.
pub record NodeCandidate : Type 0 where
  pub name : String
  pub cpu_capacity : ℤ
  pub mem_capacity : ℤ
  pub cpu_used : ℤ
  pub mem_used : ℤ
  pub accelerator_capacity : Assoc ℤ
  pub accelerator_used : Assoc ℤ
  pub used_ports : List ℤ

pub record PodRequest : Type 0 where
  pub name : String
  pub cpu_request : ℤ
  pub mem_request : ℤ
  pub accelerators_requested : Assoc ℤ
  pub container_ports : List ℤ

unfoldable pub accelerator_fits : Assoc ℤ → Assoc ℤ → String × ℤ → Bool
accelerator_fits capacity used (name, want) =
    leb_ℤ want (pos 0)
    || not (ltb_ℤ (sub64 (lookup_or (pos 0) name capacity) (lookup_or (pos 0) name used)) want)

unfoldable pub accelerators_fit : Assoc ℤ → Assoc ℤ → Assoc ℤ → Bool
unfolding accelerator_fits
accelerators_fit requested capacity used = all (accelerator_fits capacity used) requested

unfoldable pub ports_fit : List ℤ → List ℤ → Bool
ports_fit requested used = all (λ port. not (any (eq_ℤ port) used)) requested

abbrev pub free_cpu : NodeCandidate → ℤ
free_cpu n = sub64 n.cpu_capacity n.cpu_used

abbrev pub free_mem : NodeCandidate → ℤ
free_mem n = sub64 n.mem_capacity n.mem_used

-- The three `continue`s of the loop.
unfoldable pub node_fits : PodRequest → NodeCandidate → Bool
node_fits pod n =
    not (ltb_ℤ (free_cpu n) pod.cpu_request || ltb_ℤ (free_mem n) pod.mem_request)
    && (accelerators_fit pod.accelerators_requested n.accelerator_capacity n.accelerator_used
        && ports_fit pod.container_ports n.used_ports)

unfoldable pub score : NodeCandidate → ℤ
score n = add64 (free_cpu n) (free_mem n)

-- One round of the loop on (best, bestScore).
unfoldable pub consider :
    PodRequest → Option NodeCandidate × ℤ → NodeCandidate → Option NodeCandidate × ℤ
consider pod (best, best_score) n =
    if node_fits pod n && ltb_ℤ best_score (score n) then (some n, score n) else (best, best_score)

unfoldable pub scan :
    PodRequest → Option NodeCandidate × ℤ → List NodeCandidate → Option NodeCandidate × ℤ
scan pod st [] = st
scan pod st (n ∷ ns) = scan pod (consider pod st n) ns

abbrev pub name_of : Option NodeCandidate → Option String
name_of none = none
name_of (some n) = some n.name

unfoldable pub schedule : PodRequest → List NodeCandidate → Option String
schedule pod nodes = name_of (scan pod (none, negsuc 0) nodes).0
