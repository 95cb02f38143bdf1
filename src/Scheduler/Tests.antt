-- ===== src/Scheduler/Tests.antt =====
-- The scheduler on two nodes.
use nimbuscore.Prelude.{
  ℤ, pos, negsuc, true, [], ◌∷◌, ◌≡◌, refl, ◌↔◌, In, All, some, none, arith, wrap, lookup_or, ◌+ℤ◌,
  ◌-ℤ◌,
}
use nimbuscore.Scheduler.{
  NodeCandidate, PodRequest, node_fits, score, schedule, scan, consider, accelerators_fit,
  ports_fit,
}
use nimbuscore.Scheduler.Best.{NoneAbove, schedule-some, schedule-none_iff}
use nimbuscore.Scheduler.Fit.{AreAmounts, Holds, AcceleratorHolds, IsFree, node_fits_sound}

abbrev node : ℤ → NodeCandidate
node cpu = record {
  name = "n";
  cpu_capacity = cpu;
  mem_capacity = pos 100;
  cpu_used = pos 10;
  mem_used = pos 10;
  accelerator_capacity = ("gpu", pos 2) ∷ [];
  accelerator_used = [];
  used_ports = pos 80 ∷ [];
}

abbrev large : NodeCandidate
large = record (node (pos 200)) { name = "large" }

abbrev request : PodRequest
request = record {
  name = "p";
  cpu_request = pos 50;
  mem_request = pos 50;
  accelerators_requested = ("gpu", pos 1) ∷ [];
  container_ports = pos 8080 ∷ [];
}

chooses_large : schedule request (node (pos 100) ∷ large ∷ []) ≡ some "large"
unfolding schedule scan consider node_fits score accelerators_fit ports_fit wrap lookup_or ◌+ℤ◌ ◌-ℤ◌
chooses_large = refl

fits_node : node_fits request (node (pos 100)) ≡ true
unfolding node_fits score accelerators_fit ports_fit wrap lookup_or ◌+ℤ◌ ◌-ℤ◌
fits_node = refl

schedule-some_example :
    (n : NodeCandidate) × In n (node (pos 100) ∷ large ∷ [])
    × (n.name ≡ "large")
    × (node_fits request n ≡ true)
    × NoneAbove request (score n) (node (pos 100) ∷ large ∷ [])
schedule-some_example = schedule-some request (node (pos 100) ∷ large ∷ []) chooses_large

schedule-none_iff_example :
    (schedule request (node (pos 20) ∷ []) ≡ none)
    ↔ NoneAbove request (negsuc 0) (node (pos 20) ∷ [])
schedule-none_iff_example = schedule-none_iff request (node (pos 20) ∷ [])

request_amounts : All (AreAmounts (node (pos 100))) request.accelerators_requested
unfolding lookup_or
request_amounts = (
  ((ground arith, (ground arith, ground arith)), (ground arith, (ground arith, ground arith))),
  tt,
)

node_fits_sound_example :
    Holds (pos 100) (pos 10) (pos 50)
    × Holds (pos 100) (pos 10) (pos 50)
    × All (AcceleratorHolds (node (pos 100))) request.accelerators_requested
    × All (IsFree (node (pos 100)).used_ports) request.container_ports
node_fits_sound_example =
    node_fits_sound request (node (pos 100)) fits_node (ground arith, (ground arith, ground arith))
      (ground arith, (ground arith, ground arith)) (ground arith, (ground arith, ground arith))
      (ground arith, (ground arith, ground arith)) request_amounts
