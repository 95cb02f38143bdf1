-- ===== src/Controller/Deployment/Scaling.antt =====
-- What scaling down does, and at which replica counts it ends the process.
use nimbuscore.Prelude.{
  ℕ, zero, suc, ◌+◌, ◌-◌, ◌≤◌, ◌<◌, ℤ, negsuc, pos_part, ◌+ℤ◌, ◌-ℤ◌, ◌≡◌, ◌∙◌, refl, ap, sym, pos,
  ◌<ℤ◌, List, [], ◌∷◌, some, length, drop, arith,
}
use nimbuscore.Api.{Pod, Deployment}
use nimbuscore.Cluster.{Result, resume, Cluster, M, ok, err, panicked, pure, ◌>>◌}
use nimbuscore.Cluster.Reads.{IsHealthy}
use nimbuscore.Controller.Deployment.{
  wanted, scale, scale_down, delete_from, pod_at, delete_pod, owned_pods, reconcile_one, get_elem?,
}
use nimbuscore.Controller.Deployment.Owned.{owned_pods-Yields}

-- The first round at a negative index is the last one.
negative_round :
    (owned : List Pod) (n rounds : ℕ) (s : Cluster)
    → 0 < rounds
    → delete_from rounds owned (negsuc n) s ≡ (err panicked, s)
unfolding delete_from pod_at
negative_round owned n zero s h = absurd (omega arith)
negative_round owned n (suc rounds) s h = refl

scale_down-negsuc :
    (owned : List Pod) (n : ℕ) (s : Cluster) → scale_down owned (negsuc n) s ≡ (err panicked, s)
unfolding scale_down ◌-ℤ◌
scale_down-negsuc owned n s =
    negative_round owned n (pos_part (pos (length owned) -ℤ negsuc n)) s (ground arith)

scale-negsuc :
    (d : Deployment) (owned : List Pod) (n : ℕ) (s : Cluster)
    → d.spec.replicas ≡ negsuc n
    → scale d owned s ≡ (err panicked, s)
unfolding scale wanted
scale-negsuc d owned n s e = ground (arith, e, scale_down-negsuc owned n s)

scale-negative :
    (d : Deployment) (owned : List Pod) (n : ℤ) (s : Cluster)
    → d.spec.replicas ≡ n
    → n <ℤ pos 0
    → scale d owned s ≡ (err panicked, s)
scale-negative d owned (pos n) s e h = absurd (omega arith)
scale-negative d owned (negsuc n) s e h = scale-negsuc d owned n s e

-- With a store that answers, the reconciliation of a deployment that asks for a negative number of
-- replicas ends the process, whatever pods it owns and mounts: it does so after the first listing of
-- the owned pods, with the cluster as this listing leaves it.
pub negative_replicas_panic :
    (d : Deployment) (s : Cluster)
    → IsHealthy s
    → d.spec.replicas <ℤ pos 0
    → reconcile_one d s ≡ (err panicked, (owned_pods d s).1)
unfolding reconcile_one
negative_replicas_panic d s h n =
    let (t, e, _, _, _) = owned_pods-Yields d s h in
    rw e (rw (scale-negative d _ d.spec.replicas t refl n) refl)

-- The pods are deleted in order, up to the first error.
abbrev pub delete_pods : List Pod → M (Unit {0})
delete_pods [] = pure tt
delete_pods (p ∷ ps) = delete_pod p >> delete_pods ps

get_elem?-drop :
    (owned : List Pod) (i : ℕ)
    → i < length owned
    → (p : Pod) × (get_elem? owned i ≡ some p) × (drop i owned ≡ p ∷ drop (suc i) owned)
unfolding get_elem?
get_elem?-drop [] i h = absurd (omega arith)
get_elem?-drop (p ∷ ps) zero h = (p, refl, refl)
get_elem?-drop (p ∷ ps) (suc i) h = get_elem?-drop ps i (omega arith)

drop_behind : (i : ℕ) (owned : List Pod) → length owned ≤ i → drop i owned ≡ []
drop_behind zero [] h = refl
drop_behind zero (p ∷ ps) h = absurd (omega arith)
drop_behind (suc i) [] h = refl
drop_behind (suc i) (p ∷ ps) h = drop_behind i ps (omega arith)

resume_eq :
    (r : Result (Unit {0})) (f g : M (Unit {0})) (t : Cluster)
    → f t ≡ g t
    → resume r (λ u. f) t ≡ resume r (λ u. g) t
resume_eq (ok u) f g t e = e
resume_eq (err x) f g t e = refl

next_index : (i : ℕ) → pos i +ℤ pos 1 ≡ pos (suc i)
unfolding ◌+ℤ◌
next_index i = ground arith

delete_from-drop :
    (rounds i : ℕ) (owned : List Pod) (s : Cluster)
    → rounds + i ≡ length owned
    → delete_from rounds owned (pos i) s ≡ delete_pods (drop i owned) s
unfolding delete_from pod_at
delete_from-drop zero i owned s h =
    sym (ap (λ qs. delete_pods qs s) (drop_behind i owned (omega arith)))
delete_from-drop (suc rounds) i owned s h =
    let (p, at, rest) = get_elem?-drop owned i (omega arith) in
    rw (at, rest)
      (resume_eq (delete_pod p s).0 (delete_from rounds owned (pos i +ℤ pos 1))
        (delete_pods (drop (suc i) owned)) (delete_pod p s).1
        (ap (λ n. delete_from rounds owned n (delete_pod p s).1) (next_index i)
          ∙ delete_from-drop rounds (suc i) owned (delete_pod p s).1 (omega arith)))

-- Scaling down to a count that is not negative and not above that of the owned pods never reads
-- outside of the list: it deletes the pods behind the first ones, as many as are too many, in order
-- and up to the first error.
pub scale_down-drop :
    (owned : List Pod) (want : ℕ) (s : Cluster)
    → want ≤ length owned
    → scale_down owned (pos want) s ≡ delete_pods (drop want owned) s
unfolding scale_down ◌-ℤ◌
scale_down-drop owned want s h =
    ap (λ n. delete_from n owned (pos want) s) (ground arith)
    ∙ delete_from-drop (length owned - want) want owned s (omega arith)
