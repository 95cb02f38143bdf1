-- ===== src/Controller/Deployment/Owned.antt =====
-- Which pods count as the replicas of a deployment, and which are deleted on the way.
use nimbuscore.Prelude.{
  ◌≡◌, refl, inl, inr, Bool, false, ◌&&◌, ◌||◌, not, List, [], ◌∷◌, Option, none, some, Assoc,
  lookup, remove, keep, arith, Bool-cases, subst, ap, ◌∙◌, ◌==◌, if◌then◌else◌,
}
use nimbuscore.Api.{Pod, Node, Deployment, is_terminal}
use nimbuscore.Cluster.{
  Cluster, ok, M, pure, ◌>>=◌, ◌>>◌, get, delete, list, listed, list_prefix, key,
}
use nimbuscore.Cluster.Reads.{IsHealthy, counted}
use nimbuscore.Controller.Deployment.{
  node_ready, is_stranded, is_owned_by, owned_round, owned_loop, owned_pods, delete_pod,
}

-- A node that is not stored is not ready.
abbrev ready_node : Option Node → Bool
ready_node none = false
ready_node (some n) = n.status.ready

-- The pod is assigned to a node that is missing or not ready.
abbrev pub stands_dead : Assoc Node → Pod → Bool
stands_dead ns p =
    if p.spec.node_name == ""
    then false
    else not (ready_node (lookup (key "nodes" "" p.spec.node_name) ns))

-- The pod must be replaced.
abbrev pub is_lost : Assoc Node → Pod → Bool
is_lost ns p = stands_dead ns p || is_terminal p.status.phase

abbrev pub stays : Deployment → Assoc Node → Pod → Bool
stays d ns p = is_owned_by d p && not (is_lost ns p)

-- The pods that are left when the lost ones are deleted.
pub without_lost : Deployment → Assoc Node → List Pod → Assoc Pod → Assoc Pod
without_lost d ns [] m = m
without_lost d ns (p ∷ ps) m = without_lost d ns ps (
    if is_owned_by d p && is_lost ns p
    then remove (key "pods" p.metadata.namespace p.metadata.name) m
    else m)

-- What an action returns and does to the pods, in a cluster with the nodes `ns`.
abbrev pub Yields : {A : Type 0} → Assoc Node → M A → Cluster → A → Assoc Pod → Type 0
Yields ns m s a ps =
    (t : Cluster) × (m s ≡ (ok a, t)) × (t.pods ≡ ps) × (t.nodes ≡ ns) × IsHealthy t

stranded_at :
    (p : Pod) (s : Cluster)
    → IsHealthy s
    → Yields s.nodes (is_stranded p) s (stands_dead s.nodes p) s.pods
unfolding is_stranded node_ready get
stranded_at p s h = elim (Bool-cases (p.spec.node_name == "")) [
  | inl e ↦ (s, rw e, refl, refl, h)
  | inr e ↦ (counted s, rw (e, h.up s.operations) (ground arith), refl, refl, record { up = h.up })
]

deleted_at :
    (p : Pod) (s : Cluster)
    → IsHealthy s
    → Yields s.nodes
        (delete_pod p)
        s
        tt
        (remove (key "pods" p.metadata.namespace p.metadata.name) s.pods)
unfolding delete
deleted_at p s h = (
  record (counted s) { pods = remove (key "pods" p.metadata.namespace p.metadata.name) s.pods },
  ground (arith, h.up s.operations),
  refl,
  refl,
  record { up = h.up },
)

module _ (d : Deployment) (ns : Assoc Node) where
  -- The rounds behind the first.
  abbrev Rounds : M (List Pod) → List Pod → Type 0
  Rounds rest ps =
      (t : Cluster)
      → t.nodes ≡ ns
      → IsHealthy t
      → Yields ns rest t (keep (stays d ns) ps) (without_lost d ns ps t.pods)

  kept_round :
      (p : Pod) (rest : M (List Pod)) (qs : List Pod) (t : Cluster) {ms : Assoc Pod}
      → Yields ns rest t qs ms
      → Yields ns (do ps ← rest; pure (p ∷ ps)) t (p ∷ qs) ms
  kept_round p rest qs t (u, e, ep, en, h) = (u, rw e, ep, en, h)

  lost_round :
      (p : Pod) (rest : M (List Pod)) (ps : List Pod) (t : Cluster)
      → Rounds rest ps
      → t.nodes ≡ ns
      → IsHealthy t
      → Yields ns
          (delete_pod p >> rest)
          t
          (keep (stays d ns) ps)
          (without_lost d ns ps (remove (key "pods" p.metadata.namespace p.metadata.name) t.pods))
  lost_round p rest ps t r en h =
      let (t1, e1, ep, en1, h1) = deleted_at p t h in
      let (u, e2, eu, en2, h2) = r t1 (en1 ∙ en) h1 in
      (u, rw e1 e2, eu ∙ ap (without_lost d ns ps) ep, en2, h2)

  stranded_in :
      (p : Pod) (s : Cluster)
      → s.nodes ≡ ns
      → IsHealthy s
      → Yields ns (is_stranded p) s (stands_dead ns p) s.pods
  stranded_in p s en h =
      subst (λ m. Yields m (is_stranded p) s (stands_dead m p) s.pods) en (stranded_at p s h)

  owned_round-Yields :
      (p : Pod) (rest : M (List Pod)) (ps : List Pod)
      → Rounds rest ps
      → Rounds (owned_round d p rest) (p ∷ ps)
  unfolding owned_round without_lost
  owned_round-Yields p rest ps r s en h = elim (Bool-cases (is_owned_by d p)) [
    | inr e ↦ rw e (r s en h)
    | inl e ↦
        let (t, e1, ep, en1, h1) = stranded_in p s en h in
        elim (Bool-cases (is_lost ns p)) [
          | inl lost ↦
              rw (e, e1, lost)
                (subst
                  (λ m. Yields ns (delete_pod p >> rest) t (keep (stays d ns) ps) (
                    without_lost d ns ps
                      (remove (key "pods" p.metadata.namespace p.metadata.name) m)))
                  ep (lost_round p rest ps t r en1 h1))
          | inr live ↦
              rw (e, e1, live)
                (subst
                  (λ m.
                    Yields ns (do qs ← rest; pure (p ∷ qs)) t (p ∷ keep (stays d ns) ps)
                      (without_lost d ns ps m))
                  ep (kept_round p rest _ t (r t en1 h1)))
        ]
  ]

  owned_loop-Yields : (ps : List Pod) → Rounds (owned_loop d ps) ps
  unfolding owned_loop without_lost
  owned_loop-Yields [] t en h = (t, refl, refl, en, h)
  owned_loop-Yields (p ∷ ps) t en h =
      owned_round-Yields p (owned_loop d ps) ps (owned_loop-Yields ps) t en h

-- With a store that answers, `ownedPods` returns exactly the pods of the namespace that carry the
-- deployment's label, stand on no dead node and have not ended; it deletes the other pods with the
-- label, and changes nothing else among the pods and the nodes.
pub owned_pods-Yields :
    (d : Deployment) (s : Cluster)
    → IsHealthy s
    → let ps = listed (list_prefix "pods" d.metadata.namespace) s.pods in
      Yields s.nodes (owned_pods d) s (keep (stays d s.nodes) ps) (without_lost d s.nodes ps s.pods)
unfolding owned_pods list
owned_pods-Yields d s h = rw (h.up s.operations) (
    owned_loop-Yields d s.nodes (listed (list_prefix "pods" d.metadata.namespace) s.pods)
      (counted s) refl (record { up = h.up }))
