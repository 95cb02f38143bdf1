-- ===== src/Cluster.antt =====
-- The objects that the control plane keeps, one map for each kind of internal/registry/registry.go,
-- and actions on them that may fail. The keys are those of `Registry.key`.
pub mod Keys
pub mod Reads
pub mod Results
use Prim.Native.String.{◌++◌}
use nimbuscore.Prelude.{
  ℕ, suc, String, Bool, true, false, List, [], ◌∷◌, Option, none, some, Assoc, lookup, insert,
  remove, has_prefix, ◌==◌, if◌then◌else◌,
}
use nimbuscore.Api.{
  Pod, Node, Deployment, Volume, Service, Namespace, Secret, NetworkPolicy, Policy, ImageRecord,
}

-- `denied` is an error that a handler returns by itself, with its message. `panicked` is no error
-- that a caller sees: the process ends.
pub data Error : Type 0 where
  not_found unavailable panicked : Error
  denied : String → Error

pub data Result {ℓ} (A : Type ℓ) : Type ℓ where
  ok : A → Result A
  err : Error → Result A

-- `fails n` says that the n-th operation on the store fails: the leadership is lost, the log is
-- not written, a value is not decrypted. A failed operation changes nothing.
pub record Cluster : Type 0 where
  pub pods : Assoc Pod
  pub nodes : Assoc Node
  pub deployments : Assoc Deployment
  pub volumes : Assoc Volume
  pub services : Assoc Service
  pub namespaces : Assoc Namespace
  pub secrets : Assoc Secret
  pub network_policies : Assoc NetworkPolicy
  pub policies : Assoc Policy
  pub images : Assoc ImageRecord
  pub operations : ℕ
  pub fails : ℕ → Bool

abbrev pub M : Type 0 → Type 0
M A = Cluster → Result A × Cluster

abbrev pub pure : {A : Type 0} → A → M A
pure a s = (ok a, s)

abbrev pub raise : {A : Type 0} → Error → M A
raise e s = (err e, s)

abbrev pub resume : {A B : Type 0} → Result A → (A → M B) → M B
resume (ok a) f s = f a s
resume (err e) f s = (err e, s)

infixl 5 ◌>>=◌ ◌>>◌
abbrev pub ◌>>=◌ : {A B : Type 0} → M A → (A → M B) → M B
◌>>=◌ m f s = let (r, t) = m s in resume r f t

abbrev pub ◌>>◌ : {A B : Type 0} → M A → M B → M B
m >> k = m >>= λ _. k

-- An error is looked at, and not passed on.
abbrev pub attempt : {A : Type 0} → M A → M (Result A)
attempt m s = let (r, t) = m s in (ok r, t)

-- Registry.key
unfoldable pub key : String → String → String → String
key kind namespace name =
    if namespace == ""
    then "/registry/" ++ kind ++ "/" ++ name
    else "/registry/" ++ kind ++ "/" ++ namespace ++ "/" ++ name

-- The prefix of Registry.List
unfoldable pub list_prefix : String → String → String
list_prefix kind namespace =
    if namespace == ""
    then "/registry/" ++ kind ++ "/"
    else "/registry/" ++ kind ++ "/" ++ namespace ++ "/"

-- A registry: its kind, and where its objects stand.
pub record Registry (T : Type 0) : Type 0 where
  pub kind : String
  pub objects : Cluster → Assoc T
  pub replace : Assoc T → Cluster → Cluster

abbrev pub pods : Registry Pod
pods = record { kind = "pods"; objects = λ s. s.pods; replace = λ m s. record s { pods = m } }

abbrev pub nodes : Registry Node
nodes = record { kind = "nodes"; objects = λ s. s.nodes; replace = λ m s. record s { nodes = m } }

abbrev pub deployments : Registry Deployment
deployments = record {
  kind = "deployments";
  objects = λ s. s.deployments;
  replace = λ m s. record s { deployments = m };
}

abbrev pub volumes : Registry Volume
volumes = record {
  kind = "volumes";
  objects = λ s. s.volumes;
  replace = λ m s. record s { volumes = m };
}

abbrev pub services : Registry Service
services = record {
  kind = "services";
  objects = λ s. s.services;
  replace = λ m s. record s { services = m };
}

abbrev pub namespaces : Registry Namespace
namespaces = record {
  kind = "namespaces";
  objects = λ s. s.namespaces;
  replace = λ m s. record s { namespaces = m };
}

abbrev pub secrets : Registry Secret
secrets = record {
  kind = "secrets";
  objects = λ s. s.secrets;
  replace = λ m s. record s { secrets = m };
}

abbrev pub network_policies : Registry NetworkPolicy
network_policies = record {
  kind = "networkpolicies";
  objects = λ s. s.network_policies;
  replace = λ m s. record s { network_policies = m };
}

abbrev pub policies : Registry Policy
policies = record {
  kind = "policies";
  objects = λ s. s.policies;
  replace = λ m s. record s { policies = m };
}

abbrev pub images : Registry ImageRecord
images = record {
  kind = "images";
  objects = λ s. s.images;
  replace = λ m s. record s { images = m };
}

-- The next operation, done unless it fails.
unfoldable pub operate : {A : Type 0} → M A → M A
operate m s =
    let t = record s { operations = suc s.operations } in
    if s.fails s.operations then (err unavailable, t) else m t

abbrev pub found : {T : Type 0} → Option T → Result T
found none = err not_found
found (some x) = ok x

-- The values under the keys that begin with a prefix.
unfoldable pub listed : {T : Type 0} → String → Assoc T → List T
listed prefix [] = []
listed prefix ((k, x) ∷ m) =
    let rest = listed prefix m in if has_prefix k prefix then x ∷ rest else rest

module _ {T : Type 0} (r : Registry T) where
  -- Registry.Get
  unfoldable pub get : String → String → M T
  unfolding operate
  get namespace name = operate (λ s. (found (lookup (key r.kind namespace name) (r.objects s)), s))

  -- Registry.Put
  unfoldable pub put : String → String → T → M (Unit {0})
  unfolding operate
  put namespace name x =
      operate (λ s. (ok tt, r.replace (insert (key r.kind namespace name) x (r.objects s)) s))

  -- Registry.Delete
  unfoldable pub delete : String → String → M (Unit {0})
  unfolding operate
  delete namespace name =
      operate (λ s. (ok tt, r.replace (remove (key r.kind namespace name) (r.objects s)) s))

  -- Registry.List
  unfoldable pub list : String → M (List T)
  unfolding operate
  list namespace = operate (λ s. (ok (listed (list_prefix r.kind namespace) (r.objects s)), s))
