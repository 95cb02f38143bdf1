-- ===== src/Controller/Deployment/Names.antt =====
-- The pods that `reconcileOne` creates take names that no pod of the deployment has.
use Prim.Native.String.{◌++◌}
use mathlib.Core.Bool.{false≢true}
use text.Mathlib.TextLemmas.{append_assoc}
use nimbuscore.Prelude.{
  ℕ, ◌+◌, ◌≤◌, ◌<◌, ◌≡◌, refl, ◌≢◌, sym, ap, ◌∙◌, subst, eq_ℤ_iff, String, ℤ, pos, eq_ℤ, half64,
  true, false, List, [], ◌∷◌, Option, some, lookup, lookup-insert, length, any, All, In, here,
  there, atoi, itoa, atoi-itoa, strip-append, trim_prefix, arith,
}
use nimbuscore.Api.{Pod, Deployment}
use nimbuscore.Cluster.{Cluster, put, key}
use nimbuscore.Cluster.Keys.{key_ne}
use nimbuscore.Controller.Schedule.{put_pod}
use nimbuscore.Controller.Deployment.{occupied, free_indices, new_pod, pinned, create_pods}
use nimbuscore.Controller.Deployment.Indices.{IsFreeFrom, free_indices-IsFreeFrom}

pub length-occupied-le : (prefix : String) (ps : List Pod) → length (occupied prefix ps) ≤ length ps
unfolding occupied
length-occupied-le prefix [] = omega arith
length-occupied-le prefix (p ∷ ps) = ground (arith, length-occupied-le prefix ps)

any-occupied :
    (prefix : String) (z : ℤ) (p : Pod) {ps : List Pod}
    → In p ps
    → atoi (trim_prefix p.metadata.name prefix) ≡ some z
    → any (eq_ℤ z) (occupied prefix ps) ≡ true
unfolding occupied
any-occupied prefix z p (here {x = x} {xs = xs} e) h =
    rw (subst (λ q. atoi (trim_prefix q.metadata.name prefix) ≡ some z) (sym e) h, occupied)
      (ground (arith, (eq_ℤ_iff z z).1 refl))
any-occupied prefix z p (there m) h = ground (arith, any-occupied prefix z p m h)

trim_prefix-append : (p s : String) → trim_prefix (p ++ s) p ≡ s
unfolding trim_prefix
trim_prefix-append p s = rw (strip-append p s, trim_prefix)

abbrev pub new_name : Deployment → ℕ → String
new_name d i = d.metadata.name ++ "-" ++ itoa i

-- An index that is not occupied gives a name that no owned pod has.
name_fresh :
    (d : Deployment) (p : Pod) (owned : List Pod) (i : ℕ)
    → i < half64
    → any (eq_ℤ (pos i)) (occupied (d.metadata.name ++ "-") owned) ≡ false
    → In p owned
    → new_name d i ≢ p.metadata.name
name_fresh d p owned i small free m e = false≢true (sym free ∙ any-occupied _ (pos i) p m parsed)
  where
    prefix : String
    prefix = d.metadata.name ++ "-"

    renamed : prefix ++ itoa i ≡ p.metadata.name
    renamed = append_assoc d.metadata.name "-" (itoa i) ∙ e

    parsed : atoi (trim_prefix p.metadata.name prefix) ≡ some (pos i)
    parsed =
        ap (λ n. atoi (trim_prefix n prefix)) (sym renamed)
        ∙ ap atoi (trim_prefix-append prefix (itoa i))
        ∙ atoi-itoa i small

abbrev pub created : Deployment → List Pod → ℕ → List ℕ
created d owned k =
    let used = occupied (d.metadata.name ++ "-") owned in free_indices (length used + k) used 0 k

-- None of the names of the pods to create is the name of an owned pod.
created_fresh_from :
    (d : Deployment) (p : Pod) (owned : List Pod) (fuel : ℕ) (is : List ℕ)
    → fuel ≤ half64
    → In p owned
    → All (IsFreeFrom 0 fuel (occupied (d.metadata.name ++ "-") owned)) is
    → All (λ i. new_name d i ≢ p.metadata.name) is
created_fresh_from d p owned fuel [] h m a = tt
created_fresh_from d p owned fuel (i ∷ is) h m a =
    (name_fresh d p owned i (omega arith) a.0.2 m, created_fresh_from d p owned fuel is h m a.1)

pub created_fresh :
    (d : Deployment) (p : Pod) (owned : List Pod) (k : ℕ)
    → length owned + k ≤ half64
    → In p owned
    → All (λ i. new_name d i ≢ p.metadata.name) (created d owned k)
created_fresh d p owned k h m =
    created_fresh_from d p owned _ _
      (omega (arith, length-occupied-le (d.metadata.name ++ "-") owned)) m
      (free_indices-IsFreeFrom _ _ 0 k)

abbrev pub stored : Deployment → String → Cluster → Option Pod
stored d name s = lookup (key "pods" d.metadata.namespace name) s.pods

put_other :
    (d : Deployment) (claimed name : String) (i : ℕ) (s : Cluster)
    → new_name d i ≢ name
    → stored d name (put_pod (pinned claimed (new_pod d i)) s).1 ≡ stored d name s
unfolding put new_pod
put_other d claimed name i s h = ground (
  arith,
  lookup-insert (key "pods" d.metadata.namespace (new_name d i))
      (key "pods" d.metadata.namespace name) (pinned claimed (new_pod d i)) s.pods,
  key_ne "pods" d.metadata.namespace (new_name d i) name h,
)

pub create_pods_other :
    (d : Deployment) (claimed name : String) (is : List ℕ) (s : Cluster)
    → All (λ i. new_name d i ≢ name) is
    → stored d name (create_pods d claimed is s).1 ≡ stored d name s
unfolding create_pods
create_pods_other d claimed name [] s a = refl
create_pods_other d claimed name (i ∷ is) s a = ground (
  arith,
  put_other d claimed name i s a.0,
  create_pods_other d claimed name is (put_pod (pinned claimed (new_pod d i)) s).1 a.1,
)
