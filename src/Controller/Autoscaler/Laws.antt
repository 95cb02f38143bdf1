-- ===== src/Controller/Autoscaler/Laws.antt =====
-- What the autoscaler writes.
use nimbuscore.Prelude.{
  ℕ, ◌<◌, String, ℤ, pos, negsuc, ltb_ℤ, leb_ℤ, eq_ℤ, half32, false, ◌||◌, List, some, lookup,
  lookup-insert, is_empty, ◌==◌, ◌≡◌, ◌⊎◌, ◌≤ℤ◌, refl, sym, ap, ◌∙◌, subst, arith, Bool-cases, inl,
  inr,
}
use nimbuscore.Api.{Deployment}
use nimbuscore.Cluster.{
  Cluster, M, Result, ok, err, resume, ◌>>=◌, deployments, pods, get, put, list, key,
}
use nimbuscore.Cluster.Reads.{get-state}
use nimbuscore.Controller.Capacity.{cap_to_cluster_capacity}
use nimbuscore.Controller.Autoscaler.{
  least_replicas, at_least, at_most, current_replicas, with_replicas, write_replicas,
  within_capacity, desired_replicas, follow, used_memory, reconcile_one, target_memory,
}
use nimbuscore.Controller.Autoscaler.Capping.{
  Reads, pure-Reads, bind-Reads, list-Reads, cap_to_cluster_capacity-Reads, IsBetween,
}

-- At most the deployment's maximum, and at least its minimum (or the maximum, where that is smaller) or
-- the count that it had.
abbrev pub IsBounded : Deployment → ℤ → Type 0
IsBounded d n =
    (n ≤ℤ d.spec.max_replicas)
    × ((at_most d.spec.max_replicas (least_replicas d) ≤ℤ n) ⊎ (d.spec.replicas ≤ℤ n))

-- Under the key stands the deployment of before, or one with a count in the bounds.
abbrev pub IsKeptOrBounded : Deployment → String → Cluster → Cluster → Type 0
IsKeptOrBounded d k s t =
    (lookup k t.deployments ≡ lookup k s.deployments)
    ⊎ ((x : Deployment) × (lookup k t.deployments ≡ some x) × IsBounded d x.spec.replicas)

module _ (d : Deployment) (k : String) where
  kept : (s t : Cluster) → t.deployments ≡ s.deployments → IsKeptOrBounded d k s t
  kept s t e = inl (ap (lookup k) e)

  with_start :
      (u s t : Cluster)
      → t.deployments ≡ s.deployments
      → IsKeptOrBounded d k t u
      → IsKeptOrBounded d k s u
  with_start u s t e (inl h) = inl (h ∙ ap (lookup k) e)
  with_start u s t e (inr h) = inr h

  bind-IsKeptOrBounded :
      {A : Type 0} (P : A → Type 0) (m : M A) (f : A → M (Unit {0})) (s : Cluster)
      → Reads P m
      → ((a : A) (t : Cluster) → P a → IsKeptOrBounded d k t (f a t).1)
      → IsKeptOrBounded d k s ((m >>= f) s).1
  bind-IsKeptOrBounded P m f s h g = cases (m s).0 (m s).1 (h s).0 (h s).1
    where
      cases :
          (r : Result _) (t : Cluster)
          → t.deployments ≡ s.deployments
          → ((a : _) → r ≡ ok a → P a)
          → IsKeptOrBounded d k s (resume r f t).1
      cases (ok a) t e p = with_start (f a t).1 s t e (g a t (p a refl))
      cases (err x) t e p = kept s t e

  put-IsKeptOrBounded :
      (namespace name : String) (x : Deployment) (s : Cluster)
      → IsBounded d x.spec.replicas
      → IsKeptOrBounded d k s (put deployments namespace name x s).1
  unfolding put
  put-IsKeptOrBounded namespace name x s b = elim (Bool-cases (s.fails s.operations)) [
    | inl down ↦ rw down (inl refl)
    | inr up ↦ elim (Bool-cases (key "deployments" namespace name == k)) [
      | inl e ↦
          rw (up, lookup-insert (key "deployments" namespace name) k x s.deployments, e)
            (inr (x, refl, b))
      | inr e ↦
          rw (up, lookup-insert (key "deployments" namespace name) k x s.deployments, e) (inl refl)
    ]
  ]

  write_replicas-IsKeptOrBounded :
      (n : ℤ) (s : Cluster) → IsBounded d n → IsKeptOrBounded d k s (write_replicas d n s).1
  unfolding write_replicas
  write_replicas-IsKeptOrBounded n s b = elim (Bool-cases (eq_ℤ n d.spec.replicas)) [
    | inl e ↦ rw e (inl refl)
    | inr e ↦ rw e (
        bind-IsKeptOrBounded (λ c. Unit {0}) (get deployments d.metadata.namespace d.metadata.name)
          (λ c. put deployments c.metadata.namespace c.metadata.name (with_replicas n c)) s
          (λ t. (
            ap (λ u. u.deployments) (get-state deployments d.metadata.namespace t d.metadata.name),
            λ c h. tt,
          ))
          λ c t u. put-IsKeptOrBounded c.metadata.namespace c.metadata.name (with_replicas n c) t b)
  ]

desired_bounds :
    (ask : List ℤ → ℤ → ℤ → ℤ) (d : Deployment) (used : List ℤ)
    → (desired_replicas ask d used ≤ℤ d.spec.max_replicas)
      × (at_most d.spec.max_replicas (least_replicas d) ≤ℤ desired_replicas ask d used)
desired_bounds ask d used =
    within (ask used (target_memory d.spec.template.containers) (current_replicas d used))
  where
    within :
        (n : ℤ)
        → (at_most d.spec.max_replicas (at_least (least_replicas d) n) ≤ℤ d.spec.max_replicas)
          × (at_most d.spec.max_replicas (least_replicas d)
              ≤ℤ at_most d.spec.max_replicas (at_least (least_replicas d) n))
    within n = (ground arith, ground arith)

-- Of a deployment with a positive count.
module _ (d : Deployment) (replicas most : ℕ) (has_count : d.spec.replicas ≡ pos replicas)
    (has_most : d.spec.max_replicas ≡ pos most) (positive : 0 < replicas)
    (in_range : most < half32) where
  not_above : (n : ℕ) → ltb_ℤ (pos replicas) (negsuc n) ≡ false
  not_above n = ground arith

  within_capacity-Reads :
      (desired : ℤ)
      → desired ≤ℤ d.spec.max_replicas
      → at_most d.spec.max_replicas (least_replicas d) ≤ℤ desired
      → Reads (IsBounded d) (within_capacity d (pos replicas) desired)
  unfolding within_capacity
  within_capacity-Reads (negsuc n) high low =
      rw (not_above n) (pure-Reads (IsBounded d) (negsuc n) (high, inl low))
  within_capacity-Reads (pos n) high low = elim (Bool-cases (ltb_ℤ (pos replicas) (pos n))) [
    | inl e ↦ rw e (
        bind-Reads (IsBetween (pos replicas) (pos n)) (IsBounded d)
          (cap_to_cluster_capacity d (pos replicas) (pos n)) _
          (cap_to_cluster_capacity-Reads d replicas n (ground arith) (ground arith))
          λ r b. pure-Reads (IsBounded d) r.0 (ground arith, inr (ground arith)))
    | inr e ↦ rw e (pure-Reads (IsBounded d) (pos n) (high, inl low))
  ]

  follow-IsKeptOrBounded :
      (ask : List ℤ → ℤ → ℤ → ℤ) (used : List ℤ) (k : String) (s : Cluster)
      → IsKeptOrBounded d k s (follow ask d used s).1
  follow-IsKeptOrBounded ask used k s = elim (Bool-cases (is_empty used)) [
    | inl e ↦ rw e (inl refl)
    | inr e ↦ rw e (
        bind-IsKeptOrBounded d k (IsBounded d)
          (within_capacity d (current_replicas d used) (desired_replicas ask d used))
          (write_replicas d) s
          (subst (λ c. Reads (IsBounded d) (within_capacity d c (desired_replicas ask d used)))
            (sym current)
            (within_capacity-Reads (desired_replicas ask d used) (desired_bounds ask d used).0
              (desired_bounds ask d used).1))
          λ n t b. write_replicas-IsKeptOrBounded d k n t b)
  ]
    where
      current : current_replicas d used ≡ pos replicas
      current = ground arith

-- Whatever count comes out of the utilization, and whichever operations on the store fail, the
-- autoscaler's step for a deployment with a positive count and a maximum of int32 leaves under each key
-- the deployment of before, or one whose count is at most the maximum, and at least the minimum (or the
-- maximum, where that is smaller) or the count that was there.
pub reconcile_one-IsBounded :
    (ask : List ℤ → ℤ → ℤ → ℤ) (d : Deployment) (replicas most : ℕ) (k : String) (s : Cluster)
    → d.spec.replicas ≡ pos replicas
    → d.spec.max_replicas ≡ pos most
    → 0 < replicas
    → most < half32
    → IsKeptOrBounded d k s (reconcile_one ask d s).1
unfolding reconcile_one
reconcile_one-IsBounded ask d replicas most k s c m p f =
    elim (Bool-cases (
      leb_ℤ d.spec.max_replicas (pos 0)
      || leb_ℤ (target_memory d.spec.template.containers) (pos 0))) [
        | inl e ↦ rw e (inl refl)
        | inr e ↦ rw e (
            bind-IsKeptOrBounded d k (λ ps. Unit {0}) (list pods d.metadata.namespace) _ s
              (list-Reads pods d.metadata.namespace)
              λ ps t u. follow-IsKeptOrBounded d replicas most c m p f ask (used_memory d ps) k t)
      ]
