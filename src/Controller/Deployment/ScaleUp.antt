-- ===== src/Controller/Deployment/ScaleUp.antt =====
-- Scaling up: the missing replicas are stored, and the pods that are there stay as they are.
use Prim.Native.String.{◌++◌}
use text.Mathlib.TextLemmas.{append_cancel_left}
use nimbuscore.Prelude.{
  ℕ, ◌+◌, ◌≤◌, ◌<◌, ◌≡◌, refl, ◌≢◌, inl, inr, sym, ap, ◌∙◌, subst, String, ℤ, half64, List, [], ◌∷◌,
  Option, none, some, lookup, insert, lookup-insert, length, All, In, atoi, itoa, atoi-itoa, arith,
  eq_refl, Bool-cases, ◌==◌,
}
use nimbuscore.Api.{Pod, Deployment, Volume, VolumeMount}
use nimbuscore.Cluster.{
  Cluster, M, not_found, ok, err, Result, resume, found, get, put, key, volumes,
}
use nimbuscore.Cluster.Reads.{IsHealthy, counted, get-state}
use nimbuscore.Controller.Schedule.{put_pod}
use nimbuscore.Controller.Deployment.{
  claimed_by, occupied, new_pod, pinned, create_pods, resolve_volume_node, scale_up,
}
use nimbuscore.Controller.Deployment.Indices.{
  IsFreeFrom, IsIncreasing, free_indices-IsFreeFrom, free_indices-IsIncreasing, length-free_indices,
}
use nimbuscore.Controller.Deployment.Names.{
  new_name, created, created_fresh, stored, create_pods_other, length-occupied-le,
}

itoa_injective : (i j : ℕ) → i < half64 → j < half64 → itoa i ≡ itoa j → i ≡ j
itoa_injective i j hi hj e = ground (arith, sym (atoi-itoa i hi) ∙ ap atoi e ∙ atoi-itoa j hj)

new_name_injective :
    (d : Deployment) (i j : ℕ) → i < half64 → j < half64 → new_name d i ≡ new_name d j → i ≡ j
new_name_injective d i j hi hj e =
    itoa_injective i j hi hj (append_cancel_left "-" _ _ (append_cancel_left d.metadata.name _ _ e))

claimed_by-state :
    (P : Cluster → Type 0) (r : Result Volume) (rest : M String) (s : Cluster)
    → P s
    → P (rest s).1
    → P (claimed_by r rest s).1
claimed_by-state P (ok vol) rest s h k = ground arith
claimed_by-state P (err not_found) rest s h k = k
claimed_by-state P (err _) rest s h k = h

abbrev SamePods : Cluster → Cluster → Type 0
SamePods s t = (t.pods ≡ s.pods) × (t.fails ≡ s.fails)

-- Reading the volumes leaves the pods alone.
resolve_volume_node-SamePods :
    (namespace : String) (ms : List VolumeMount) (s : Cluster)
    → SamePods s (resolve_volume_node namespace ms s).1
unfolding resolve_volume_node
resolve_volume_node-SamePods namespace [] s = (refl, refl)
resolve_volume_node-SamePods namespace (m ∷ ms) s =
    rw (get-state volumes namespace s m.volume_name) (
      claimed_by-state (SamePods s) (get volumes namespace m.volume_name s).0
        (resolve_volume_node namespace ms) (counted s) (refl, refl)
        (resolve_volume_node-SamePods namespace ms (counted s)))

resolved_create :
    (P : Cluster → Type 0) (d : Deployment) (is : List ℕ) (r : Result String) (s : Cluster)
    → P s
    → ((claimed : String) → P (create_pods d claimed is s).1)
    → P (resume r (λ claimed. create_pods d claimed is) s).1
resolved_create P d is (ok claimed) s h k = k claimed
resolved_create P d is (err e) s h k = h

-- Whatever fails, scaling up by k pods leaves what is stored under the name of each owned pod, in
-- the deployment's namespace, as it is, where the owned pods and k are together at most 2^63.
pub scale_up-keeps_owned :
    (d : Deployment) (owned : List Pod) (k : ℕ) (p : Pod) (s : Cluster)
    → length owned + k ≤ half64
    → In p owned
    → stored d p.metadata.name (scale_up d owned k s).1 ≡ stored d p.metadata.name s
unfolding scale_up
scale_up-keeps_owned d owned k p s h m =
    let t = (resolve_volume_node d.metadata.namespace d.spec.template.volumes s).1 in
    let same = (resolve_volume_node-SamePods d.metadata.namespace d.spec.template.volumes s).0 in
    resolved_create (λ u. stored d p.metadata.name u ≡ stored d p.metadata.name s) d
      (created d owned k) _ t (rw same)
      (λ claimed.
        create_pods_other d claimed p.metadata.name (created d owned k) t
          (created_fresh d p owned k h m)
        ∙ rw same)

-- The pod at every index is stored as it was made.
abbrev pub AllStored : Deployment → String → List ℕ → Cluster → Type 0
AllStored d claimed is s =
    All (λ i. stored d (new_name d i) s ≡ some (pinned claimed (new_pod d i))) is

others_apart :
    (d : Deployment) (i : ℕ) (is : List ℕ)
    → i < half64
    → All (λ j. j < half64) is
    → All (λ j. i < j) is
    → All (λ j. new_name d j ≢ new_name d i) is
others_apart d i [] h b a = tt
others_apart d i (j ∷ js) h b a = (
  λ e. absurd (omega (arith, a.0, new_name_injective d j i b.0 h e)),
  others_apart d i js h b.1 a.1,
)

-- The cluster behind the creation of one pod.
abbrev with_pod : Deployment → String → ℕ → Cluster → Cluster
with_pod d claimed i s = record (counted s) {
  pods =
      insert (key "pods" d.metadata.namespace (new_name d i)) (pinned claimed (new_pod d i)) s.pods;
}

put_self :
    (d : Deployment) (claimed : String) (i : ℕ) (s : Cluster)
    → IsHealthy s
    → put_pod (pinned claimed (new_pod d i)) s ≡ (ok tt, with_pod d claimed i s)
unfolding put new_pod
put_self d claimed i s h = ground (arith, h.up s.operations)

stored_self :
    (d : Deployment) (claimed : String) (i : ℕ) (s : Cluster)
    → stored d (new_name d i) (with_pod d claimed i s) ≡ some (pinned claimed (new_pod d i))
stored_self d claimed i s = simp (lookup-insert, eq_refl)

create_pods-cons :
    (d : Deployment) (claimed : String) (i : ℕ) (is : List ℕ) (s : Cluster)
    → IsHealthy s
    → create_pods d claimed (i ∷ is) s ≡ create_pods d claimed is (with_pod d claimed i s)
unfolding create_pods
create_pods-cons d claimed i is s h = rw (put_self d claimed i s h)

create_pods-AllStored :
    (d : Deployment) (claimed : String) (is : List ℕ) (s : Cluster)
    → IsHealthy s
    → All (λ j. j < half64) is
    → IsIncreasing is
    → ((create_pods d claimed is s).0 ≡ ok tt)
      × AllStored d claimed is (create_pods d claimed is s).1
unfolding create_pods
create_pods-AllStored d claimed [] s h b a = (refl, tt)
create_pods-AllStored d claimed (i ∷ is) s h b a =
    let t = with_pod d claimed i s in
    let ih = create_pods-AllStored d claimed is t (record { up = h.up }) b.1 a.1 in
    let apart = others_apart d i is b.0 b.1 a.0 in
    subst (λ r. (r.0 ≡ ok tt) × AllStored d claimed (i ∷ is) r.1)
      (sym (create_pods-cons d claimed i is s h))
      (
        ih.0,
        (create_pods_other d claimed (new_name d i) is t apart ∙ stored_self d claimed i s, ih.1),
      )

claimed_by-ok :
    (o : Option Volume) (rest : M String) (s : Cluster)
    → (c : String) × ((rest s).0 ≡ ok c)
    → (c : String) × ((claimed_by (found o) rest s).0 ≡ ok c)
claimed_by-ok none rest s h = h
claimed_by-ok (some vol) rest s h = elim (Bool-cases (vol.status.node_name == "")) [
  | inl e ↦ rw e h
  | inr e ↦ rw e (vol.status.node_name, refl)
]

get_healthy :
    (namespace name : String) (s : Cluster)
    → IsHealthy s
    → get volumes namespace name s
      ≡ (found (lookup (key "volumes" namespace name) s.volumes), counted s)
unfolding get
get_healthy namespace name s h = ground (arith, h.up s.operations)

resolve_volume_node-ok :
    (namespace : String) (ms : List VolumeMount) (s : Cluster)
    → IsHealthy s
    → (c : String) × ((resolve_volume_node namespace ms s).0 ≡ ok c)
unfolding resolve_volume_node
resolve_volume_node-ok namespace [] s h = ("", refl)
resolve_volume_node-ok namespace (m ∷ ms) s h = rw (get_healthy namespace m.volume_name s h) (
    claimed_by-ok (lookup (key "volumes" namespace m.volume_name) s.volumes) _ (counted s)
      (resolve_volume_node-ok namespace ms (counted s) (record { up = h.up })))

below_of_free :
    (fuel : ℕ) (used : List ℤ) (is : List ℕ)
    → fuel ≤ half64
    → All (IsFreeFrom 0 fuel used) is
    → All (λ j. j < half64) is
below_of_free fuel used [] h a = tt
below_of_free fuel used (i ∷ is) h a = (omega (arith, a.0.1), below_of_free fuel used is h a.1)

resolved_step :
    (d : Deployment) (is : List ℕ) {claimed : String} (r : Result String) (t : Cluster)
    → r ≡ ok claimed
    → resume r (λ c. create_pods d c is) t ≡ create_pods d claimed is t
resolved_step d is r t e = rw e

-- With a store that answers, and where the owned pods and k are together at most 2^63, scaling up
-- by k pods ends without an error after storing k pods at increasing indices, each as it was made
-- for its index, and all pinned to one and the same node, or to none.
pub scale_up-creates :
    (d : Deployment) (owned : List Pod) (k : ℕ) (s : Cluster)
    → length owned + k ≤ half64
    → IsHealthy s
    → (claimed : String) × ((scale_up d owned k s).0 ≡ ok tt)
      × (length (created d owned k) ≡ k)
      × IsIncreasing (created d owned k)
      × AllStored d claimed (created d owned k) (scale_up d owned k s).1
unfolding scale_up
scale_up-creates d owned k s h up =
    let ns = d.metadata.namespace in
    let ms = d.spec.template.volumes in
    let t = (resolve_volume_node ns ms s).1 in
    let (claimed, e) = resolve_volume_node-ok ns ms s up in
    let used = occupied (d.metadata.name ++ "-") owned in
    let up' : IsHealthy t = record {
      up = λ n. rw (resolve_volume_node-SamePods ns ms s).1 (up.up n);
    } in
    let made =
      create_pods-AllStored d claimed (created d owned k) t up'
        (below_of_free (length used + k) used _
          (omega (arith, length-occupied-le (d.metadata.name ++ "-") owned))
          (free_indices-IsFreeFrom (length used + k) used 0 k))
        (free_indices-IsIncreasing (length used + k) used 0 k) in
    let step = resolved_step d (created d owned k) _ t e in
    subst
      (λ r.
        (c : String) × (r.0 ≡ ok tt)
        × (length (created d owned k) ≡ k)
        × IsIncreasing (created d owned k)
        × AllStored d c (created d owned k) r.1)
      (sym step)
      (
        claimed,
        made.0,
        length-free_indices used k,
        free_indices-IsIncreasing (length used + k) used 0 k,
        made.1,
      )
