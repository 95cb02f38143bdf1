-- ===== src/Controller/Schedule/Passes.antt =====
-- One pass of the scheduling over pods that wait for a node.
use nimbuscore.Prelude.{
  ◌≡◌, refl, ap, ◌∙◌, suc, length, ℤ, negsuc, Option, String, true, List, [], ◌∷◌, none, some,
  insert, lookup, lookup-insert, ◌==◌, Bool-cases, inl, inr, All, arith, eq_refl,
}
use nimbuscore.Api.{Pod}
use nimbuscore.Cluster.{Cluster, ok, key, put}
use nimbuscore.Cluster.Reads.{IsHealthy, counted}
use nimbuscore.Scheduler.{NodeCandidate, PodRequest, node_fits, consider, scan, schedule, name_of}
use nimbuscore.Controller.Usage.{NodeUsage, pod_resource_request}
use nimbuscore.Controller.Schedule.{
  placed, pending_message, request_with, request_of, schedule_pod, schedule_each, is_unassigned,
  put_pod,
}

-- A pod for which no node is found is written once: when the next pass finds no node either, it
-- writes nothing.
pub pending_written_once :
    (candidates : List NodeCandidate) (p : Pod) (s : Cluster)
    → schedule (request_of p) candidates ≡ none
    → schedule_pod candidates (placed p none) s ≡ (ok tt, s)
unfolding schedule_pod pod_resource_request
pending_written_once candidates p s h =
    ground (arith, h, eq_refl (pending_message (pod_resource_request p).ports))

-- The pods that a pass leaves all stand on `node_name`.
abbrev pub AllOn : String → List Pod → Type 0
AllOn node_name = All (λ p. p.spec.node_name ≡ node_name)

-- Under the key of the pod a pod is stored that stands on the node.
abbrev pub IsStoredOn : String → Cluster → Pod → Type 0
IsStoredOn node_name s p =
    (q : Pod) × (lookup (key "pods" p.metadata.namespace p.metadata.name) s.pods ≡ some q)
    × (q.spec.node_name ≡ node_name)

-- A pod that is put on a node is stored, and what stands on the node still does so.
put_pod-IsStoredOn :
    (p : Pod) (s : Cluster)
    → IsHealthy s
    → (t : Cluster) × (put_pod p s ≡ (ok tt, t))
      × IsHealthy t
      × IsStoredOn p.spec.node_name t p
      × ((o : Pod) → IsStoredOn p.spec.node_name s o → IsStoredOn p.spec.node_name t o)
unfolding put
put_pod-IsStoredOn p s h =
    let k = key "pods" p.metadata.namespace p.metadata.name in
    (
      record (counted s) { pods = insert k p s.pods },
      ground (arith, h.up s.operations),
      record { up = h.up },
      (p, ground (arith, lookup-insert k k p s.pods, eq_refl k), refl),
      λ o on. elim (Bool-cases (k == key "pods" o.metadata.namespace o.metadata.name)) [
        | inl e ↦ (
          p,
          ground
              (arith, lookup-insert k (key "pods" o.metadata.namespace o.metadata.name) p s.pods),
          refl,
        )
        | inr e ↦ (
          on.0,
          ground (
            arith,
            lookup-insert k (key "pods" o.metadata.namespace o.metadata.name) p s.pods,
            on.1,
          ),
          on.2,
        )
      ],
    )

schedule_pod-some :
    (candidates : List NodeCandidate) (p : Pod) (s : Cluster) {node_name : String}
    → schedule (request_of p) candidates ≡ some node_name
    → schedule_pod candidates p s ≡ put_pod (placed p (some node_name)) s
unfolding schedule_pod
schedule_pod-some candidates p s h = rw h

-- The name of the pod plays no part in the choice.
scan-name :
    (r : PodRequest) (name : String) (st : Option NodeCandidate × ℤ) (ns : List NodeCandidate)
    → scan (record r { name = name }) st ns ≡ scan r st ns
unfolding scan consider node_fits
scan-name r name st [] = refl
scan-name r name st (n ∷ ns) = scan-name r name (consider r st n) ns

schedule-name :
    (needs : NodeUsage) (a b : String) (ns : List NodeCandidate)
    → schedule (request_with a needs) ns ≡ schedule (request_with b needs) ns
unfolding schedule
schedule-name needs a b ns =
    ap (λ r. name_of r.0) (scan-name (request_with b needs) a (none, negsuc 0) ns)

pass :
    (candidates : List NodeCandidate) (needs : NodeUsage) (name node_name : String) (ps : List Pod)
    (s : Cluster)
    → schedule (request_with name needs) candidates ≡ some node_name
    → All (λ p. (is_unassigned p ≡ true) × (pod_resource_request p ≡ needs)) ps
    → IsHealthy s
    → (qs : List Pod) × (t : Cluster) × (schedule_each candidates ps s ≡ (ok (qs, ok tt), t))
      × (length qs ≡ length ps)
      × AllOn node_name qs
      × All (IsStoredOn node_name t) ps
      × ((o : Pod) → IsStoredOn node_name s o → IsStoredOn node_name t o)
unfolding schedule_each placed
pass candidates needs name node_name [] s h a up = ([], s, refl, refl, tt, tt, λ o on. on)
pass candidates needs name node_name (p ∷ ps) s h a up =
    let found =
      ap (λ u. schedule (request_with p.metadata.name u) candidates) a.0.1
      ∙ schedule-name needs p.metadata.name name candidates
      ∙ h in
    let (t, e, up', here_on, keeps) = put_pod-IsStoredOn (placed p (some node_name)) s up in
    let (qs, u, er, len, on, stored, later) = pass candidates needs name node_name ps t h a.1 up' in
    (
      placed p (some node_name) ∷ qs,
      u,
      rw (a.0.0, schedule_pod-some candidates p s found, e) (ground (arith, found, er)),
      ap suc len,
      (refl, on),
      (later p here_on, stored),
      λ o was. later o (keeps o was),
    )

-- A pass does not count the pods that it has just placed. Take a list of pods that all wait for a node
-- and have the same needs, and a store that does not fail: when the candidates give a pod of these
-- needs a node, then all the pods of the list, however many, are assigned to that one node, in what is
-- returned and in the store.
pub schedule_each-stale :
    (candidates : List NodeCandidate) (needs : NodeUsage) (name node_name : String) (ps : List Pod)
    (s : Cluster)
    → schedule (request_with name needs) candidates ≡ some node_name
    → All (λ p. (is_unassigned p ≡ true) × (pod_resource_request p ≡ needs)) ps
    → IsHealthy s
    → (qs : List Pod) × (t : Cluster) × (schedule_each candidates ps s ≡ (ok (qs, ok tt), t))
      × (length qs ≡ length ps)
      × AllOn node_name qs
      × All (IsStoredOn node_name t) ps
schedule_each-stale candidates needs name node_name ps s h a up =
    let (qs, t, e, len, on, stored, _) = pass candidates needs name node_name ps s h a up in
    (qs, t, e, len, on, stored)
