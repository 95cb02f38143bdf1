-- ===== src/Apiserver/Services/Reading.antt =====
-- Resolving the endpoints of a service changes no service.
use nimbuscore.Prelude.{◌≡◌, refl, ap, ◌∙◌, String, inl, inr, List, [], ◌∷◌, is_empty, Bool-cases}
use nimbuscore.Api.{Service, Pod}
use nimbuscore.Cluster.{
  Cluster, M, Result, ok, err, pure, resume, attempt, ◌>>=◌, nodes, pods, get, list, Registry,
}
use nimbuscore.Cluster.Reads.{get-state, list-state}
use nimbuscore.Apiserver.Codes.{answering, internal}
use nimbuscore.Apiserver.Services.{is_backend, with_endpoint, endpoints_of, resolve}

-- The action leaves the services as they are, also when it fails.
abbrev pub IsReading : {A : Type 0} → M A → Type 0
IsReading m = (s : Cluster) → (m s).1.services ≡ s.services

pub pure-IsReading : {A : Type 0} (a : A) → IsReading (pure a)
pure-IsReading a s = refl

pub bind-IsReading :
    {A B : Type 0} (m : M A) (f : A → M B)
    → IsReading m
    → ((a : A) → IsReading (f a))
    → IsReading (m >>= f)
bind-IsReading {A = A} m f h k s = resumed (m s).0 (m s).1 ∙ h s
  where
    resumed : (r : Result A) (t : Cluster) → (resume r f t).1.services ≡ t.services
    resumed (ok a) t = k a t
    resumed (err e) t = refl

pub get-IsReading :
    {T : Type 0} (r : Registry T) (namespace name : String) → IsReading (get r namespace name)
get-IsReading r namespace name s = ap (λ t. t.services) (get-state r namespace s name)

pub list-IsReading :
    {T : Type 0} (r : Registry T) (namespace : String) → IsReading (list r namespace)
list-IsReading r namespace s = ap (λ t. t.services) (list-state r namespace s)

endpoints_of-IsReading : (x : Service) (ps : List Pod) → IsReading (endpoints_of x ps)
unfolding endpoints_of
endpoints_of-IsReading x [] s = refl
endpoints_of-IsReading x (p ∷ ps) s = elim (Bool-cases (is_backend x p)) [
  | inl e ↦ rw e (
      bind-IsReading (attempt (get nodes "" p.spec.node_name))
        (λ node. endpoints_of x ps >>= λ rest. pure (with_endpoint x p node rest))
        (get-IsReading nodes "" p.spec.node_name)
        (λ node.
          bind-IsReading (endpoints_of x ps) (λ rest. pure (with_endpoint x p node rest))
            (endpoints_of-IsReading x ps) (λ rest. pure-IsReading (with_endpoint x p node rest)))
        s)
  | inr e ↦ rw e (endpoints_of-IsReading x ps s)
]

pub resolve-IsReading : (x : Service) → IsReading (resolve x)
unfolding resolve
resolve-IsReading x s = elim (Bool-cases (is_empty x.spec.selector)) [
  | inl e ↦ rw e refl
  | inr e ↦ rw e (
      bind-IsReading (answering internal (list pods x.metadata.namespace))
        (λ ps. endpoints_of x ps >>= λ es. pure (record x { endpoints = es }))
        (list-IsReading pods x.metadata.namespace)
        (λ ps.
          bind-IsReading (endpoints_of x ps) (λ es. pure (record x { endpoints = es }))
            (endpoints_of-IsReading x ps) (λ es. pure-IsReading (record x { endpoints = es })))
        s)
]
