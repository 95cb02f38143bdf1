-- ===== src/Dashboard/Tests.antt =====
-- A session and an edit in the dashboard, with concrete values.
use Prim.Native.Char.{code}
use nimbuscore.Prelude.{
  true, ℕ, zero, suc, ◌+◌, pos, ltb, eqb, String, false, List, [], ◌∷◌, Option, none, some,
  if◌then◌else◌, ◌≡◌, refl, ap, ◌∙◌, arith, lookup,
}
use nimbuscore.Fixtures.{one_pod, web}
use nimbuscore.Api.{Volume, VolumeMount, Deployment, zero_pod_spec, zero_container}
use nimbuscore.Cluster.Reads.{IsHealthy}
use nimbuscore.Cluster.{Cluster, M, err, not_found, key}
use nimbuscore.Dashboard.Session.{issue_token, valid_token}
use nimbuscore.Dashboard.Session.Laws.{valid_token-issue_token}
use nimbuscore.Dashboard.Request.{CreateDeploymentRequest, is_refused}
use nimbuscore.Dashboard.Deploy.{handle_create_deployment}
use nimbuscore.Dashboard.Deploy.Laws.{IsEdited, one_replica, handle_create_deployment-edit}

-- Numbers as strokes, each closed by a dash.
unfoldable strokes : ℕ → String → String
strokes zero s = s
strokes (suc n) s = String.◌∷◌ "i" (strokes n s)

unfoldable encode : List ℕ → String
encode [] = ""
encode (n ∷ b) = strokes n (String.◌∷◌ "-" (encode b))

abbrev before : ℕ → Option (List ℕ) → Option (List ℕ)
before n none = none
before n (some b) = some (n ∷ b)

unfoldable counted : ℕ → String → Option (List ℕ)
counted n String.[] = if eqb n 0 then some [] else none
counted n (String.◌∷◌ c s) =
    let more = counted (suc n) s in
    let closed = before n (counted 0 s) in if eqb (code c) b'i' then more else closed

counted-strokes :
    (m n : ℕ) (s : String) → counted m (strokes n (String.◌∷◌ "-" s)) ≡ before (n + m) (counted 0 s)
unfolding counted strokes
counted-strokes m zero s = ap (λ k. before k (counted 0 s)) (ground arith)
counted-strokes m (suc n) s =
    counted-strokes (suc m) n s ∙ ap (λ k. before k (counted 0 s)) (ground arith)

abbrev decode : String → Option (List ℕ)
decode s = counted 0 s

decode-encode : (b : List ℕ) → decode (encode b) ≡ some b
unfolding encode counted
decode-encode [] = refl
decode-encode (n ∷ b) =
    counted-strokes 0 n (encode b) ∙ rw (decode-encode b) (ap (λ k. some (k ∷ b)) (ground arith))

-- A code that tells some times from others.
abbrev mac : String → List ℕ
mac String.[] = []
mac (String.◌∷◌ c s) = code c ∷ []

valid_token-issue_token_example :
    valid_token mac encode decode (pos 100) (issue_token mac encode decode (pos 7))
    ≡ ltb 100 (7 + 86400)
valid_token-issue_token_example =
    valid_token-issue_token mac encode decode 7 100 decode-encode (ground arith)

abbrev three_more : CreateDeploymentRequest
three_more = record {
  name = "web";
  namespace = "a";
  image = "shop:v2";
  git_repo_url = "";
  git_branch = "";
  git_dockerfile = "";
  git_context = "";
  replicas = pos 3;
  port = pos 0;
  command = [];
  env = [];
  cpu_millis = pos 0;
  memory_bytes = pos 0;
  add_persistent_storage = false;
  mount_path = "";
  links = [];
}

accepted : is_refused three_more ≡ false
unfolding is_refused
accepted = refl

abbrev no_volumes : Volume → M Volume
no_volumes v s = (err not_found, s)

abbrev data_volume : VolumeMount
data_volume = record { volume_name = "data"; mount_path = "/data"; read_only = false }

-- A deployment of one replica with a volume.
abbrev database : Deployment
database = record (web (pos 1)) {
  spec = record (web (pos 1)).spec {
    template = record zero_pod_spec {
      containers = zero_container ∷ [];
      volumes = data_volume ∷ [];
    };
  };
}

abbrev with_database : Cluster
with_database = record one_pod { deployments = ("/registry/deployments/a/web", database) ∷ [] }

with_database-IsHealthy : IsHealthy with_database
with_database-IsHealthy = record { up = λ n. refl }

stored : lookup (key "deployments" "a" "web") with_database.deployments ≡ some database
unfolding lookup key
stored = refl

handle_create_deployment-edit_example :
    (out : Deployment) × IsEdited true
      (key "deployments" "a" "web")
      database
      out
      (handle_create_deployment one_replica no_volumes (some three_more) with_database)
    × (out.spec.template.volumes ≡ data_volume ∷ [])
    × (out.spec.replicas ≡ pos 3)
    × (out.spec.min_replicas ≡ pos 0)
    × (out.spec.max_replicas ≡ pos 0)
handle_create_deployment-edit_example =
    handle_create_deployment-edit no_volumes three_more database with_database
      with_database-IsHealthy stored refl accepted refl refl
