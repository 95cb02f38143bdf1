-- ===== src/Controller/Autoscaler/Capping.antt =====
-- What the cap of the cluster reads, and the counts that it gives.
use nimbuscore.Prelude.{
  lookup_or, sub64, ℕ, ◌<◌, ◌≤◌, String, ℤ, pos, negsuc, half32, [], ◌∷◌, Assoc, ◌≡◌, ◌≤ℤ◌, refl,
  sym, ap, ◌∙◌, subst, arith,
}
use nimbuscore.Api.{Deployment}
use nimbuscore.Cluster.{
  Cluster, M, Result, ok, err, pure, resume, ◌>>=◌, Registry, pods, nodes, list,
}
use nimbuscore.Cluster.Reads.{list-state}
use nimbuscore.Controller.Usage.{add_containers, no_usage, compute_node_usage}
use nimbuscore.Controller.Capacity.{
  ClusterCapacity, fit_count, smaller, room_for, least_accelerator, max_additional_replicas,
  max_int32, capped, compute_cluster_capacity, cap_to_cluster_capacity,
}
use nimbuscore.Controller.Capacity.Fits.{capped_bounds}

-- The action leaves the deployments alone, and what it gives has the property.
abbrev pub Reads : {A : Type 0} → (A → Type 0) → M A → Type 0
Reads {A} P m =
    (s : Cluster) → ((m s).1.deployments ≡ s.deployments) × ((a : A) → (m s).0 ≡ ok a → P a)

ok_injective : {A : Type 0} {a b : A} → ok a ≡ ok b → a ≡ b
ok_injective h = cc

pub pure-Reads : {A : Type 0} (P : A → Type 0) (a : A) → P a → Reads P (pure a)
pure-Reads P a p s = (refl, λ b h. subst P (ok_injective h) p)

pub bind-Reads :
    {A B : Type 0} (P : A → Type 0) (Q : B → Type 0) (m : M A) (f : A → M B)
    → Reads P m
    → ((a : A) → P a → Reads Q (f a))
    → Reads Q (m >>= f)
bind-Reads P Q m f h k s = cases (m s).0 (m s).1 (h s).0 (h s).1
  where
    cases :
        (r : Result _) (t : Cluster)
        → t.deployments ≡ s.deployments
        → ((a : _) → r ≡ ok a → P a)
        → ((resume r f t).1.deployments ≡ s.deployments) × ((b : _) → (resume r f t).0 ≡ ok b → Q b)
    cases (ok a) t e p = ((k a (p a refl) t).0 ∙ e, (k a (p a refl) t).1)
    cases (err x) t e p = (e, λ b h. ground arith)

pub list-Reads :
    {T : Type 0} (r : Registry T) (namespace : String)
    → Reads (λ items. Unit {0}) (list r namespace)
list-Reads r namespace s = (ap (λ t. t.deployments) (list-state r namespace s), λ items h. tt)

fit_count-pos : (remaining per : ℤ) → pos 0 ≤ℤ fit_count remaining per
unfolding fit_count
fit_count-pos remaining per = ground arith

least_accelerator-pos :
    (c : ClusterCapacity) (least : ℤ) (rest : Assoc ℤ)
    → pos 0 ≤ℤ least
    → pos 0 ≤ℤ least_accelerator c least rest
unfolding least_accelerator
least_accelerator-pos c least [] h = h
least_accelerator-pos c least ((name, per) ∷ rest) h =
    least_accelerator-pos c (smaller (room_for c name per) least) rest (
      ground (
        arith,
        h,
        fit_count-pos
            (sub64 (lookup_or (pos 0) name c.accelerator_capacity)
              (lookup_or (pos 0) name c.accelerator_used))
            per,
      ))

max_additional_replicas-pos :
    (c : ClusterCapacity) (cpu mem : ℤ) (accelerators : Assoc ℤ)
    → pos 0 ≤ℤ max_additional_replicas c cpu mem accelerators
unfolding max_additional_replicas
max_additional_replicas-pos c cpu mem accelerators =
    least_accelerator-pos c
      (smaller (fit_count (sub64 c.mem_capacity c.mem_used) mem)
        (smaller (fit_count (sub64 c.cpu_capacity c.cpu_used) cpu) (pos max_int32)))
      accelerators
      (ground (
        arith,
        fit_count-pos (sub64 c.mem_capacity c.mem_used) mem,
        fit_count-pos (sub64 c.cpu_capacity c.cpu_used) cpu,
      ))

-- A count that the cap gives lies between the present one and the desired one.
abbrev pub IsBetween : ℤ → ℤ → ℤ × ℤ → Type 0
IsBetween current desired r = (current ≤ℤ r.0) × (r.0 ≤ℤ desired)

capped-IsBetween :
    (limit : ℤ) (current desired : ℕ)
    → pos 0 ≤ℤ limit
    → current ≤ desired
    → desired < half32
    → IsBetween (pos current) (pos desired) (capped limit (pos current) (pos desired))
capped-IsBetween (pos limit) current desired p h f =
    let (n, e, low, high, _) = capped_bounds limit current desired h f in
    subst (IsBetween (pos current) (pos desired)) (sym e) (ground arith, ground arith)
capped-IsBetween (negsuc n) current desired p h f = ground arith

pub cap_to_cluster_capacity-Reads :
    (d : Deployment) (current desired : ℕ)
    → current ≤ desired
    → desired < half32
    → Reads
        (IsBetween (pos current) (pos desired))
        (cap_to_cluster_capacity d (pos current) (pos desired))
unfolding cap_to_cluster_capacity compute_cluster_capacity compute_node_usage
cap_to_cluster_capacity-Reads d current desired h f =
    bind-Reads (λ u. Unit {0}) (IsBetween (pos current) (pos desired)) compute_node_usage _
      (bind-Reads (λ u. Unit {0}) (λ u. Unit {0}) (list pods "") _ (list-Reads pods "")
        λ ps u s. (refl, λ a e. tt))
      λ usage u.
        bind-Reads (λ u. Unit {0}) (IsBetween (pos current) (pos desired))
          (compute_cluster_capacity usage) _
          (bind-Reads (λ u. Unit {0}) (λ u. Unit {0}) (list nodes "") _ (list-Reads nodes "")
            λ ns u s. (refl, λ a e. tt))
          λ capacity u.
            let need = add_containers no_usage d.spec.template.containers in
            pure-Reads (IsBetween (pos current) (pos desired)) _ (
              capped-IsBetween _ current desired
                (max_additional_replicas-pos capacity need.cpu_millis need.memory_bytes
                  need.accelerators)
                h f)
