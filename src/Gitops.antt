-- ===== src/Gitops.antt =====
-- internal/gitops/reconciler.go: deployments applied from the files of a repository. Fetching the
-- repository and reading its directory are the library's (go-git) and the machine's; what they give in
-- one round is the record `Checkout`.
pub mod Laws
mod Tests
use Prim.Native.String.{◌++◌}
use nimbuscore.Prelude.{
  ℤ, String, Bool, true, false, not, ◌||◌, List, [], ◌∷◌, Option, none, some, insert, ◌==◌,
  if◌then◌else◌, strip,
}
use nimbuscore.Api.{Deployment}
use nimbuscore.Cluster.{Cluster, M, Result, ok, err, pure, attempt, ◌>>=◌, ◌>>◌, deployments, put}

abbrev pub managed_by_label : String
managed_by_label = "nimbuscore.io/managed-by"

abbrev pub managed_by_value : String
managed_by_value = "gitops"

pub record Config : Type 0 where
  pub repo_url : String
  pub branch : String
  pub path : String

pub record Status : Type 0 where
  pub repo_url : String
  pub branch : String
  pub path : String
  pub last_sync_unix : ℤ
  pub last_commit : String
  pub last_error : String

-- strings.HasSuffix(s, t)
unfoldable pub has_suffix : String → String → Bool
has_suffix String.[] t = t == ""
has_suffix (String.◌∷◌ c s) t = String.◌∷◌ c s == t || has_suffix s t

-- A file whose content cannot be read is `unreadable`, one that is no deployment `unparsable`.
pub data Content : Type 0 where
  unreadable unparsable : Content
  manifest : Deployment → Content

pub record DirEntry : Type 0 where
  pub name : String
  pub is_dir : Bool
  pub content : Content

-- An error of a step is its text.
pub data Attempt {ℓ} (A : Type ℓ) : Type ℓ where
  success : A → Attempt A
  failure : String → Attempt A

pub record Checkout : Type 0 where
  pub fetch : Attempt (Unit {0})
  pub head_commit : Attempt String
  pub entries : Attempt (List DirEntry)

abbrev pub or_main : Config → Config
or_main cfg = record cfg { branch = if cfg.branch == "" then "main" else cfg.branch }

abbrev pub managed : Deployment → Deployment
managed d = record d {
  metadata = record d.metadata {
    labels = insert managed_by_label managed_by_value d.metadata.labels;
  };
}

abbrev pub apply_manifest : Deployment → M (Unit {0})
apply_manifest d =
    if d.metadata.name == ""
    then pure tt
    else (attempt (put deployments d.metadata.namespace d.metadata.name (managed d)) >> pure tt)

abbrev pub apply_content : Content → M (Unit {0})
apply_content unreadable = pure tt
apply_content unparsable = pure tt
apply_content (manifest d) = apply_manifest d

-- One entry of the loop of Sync.
unfoldable pub apply_entry : DirEntry → M (Unit {0})
unfolding has_suffix
apply_entry e =
    if e.is_dir || not (has_suffix e.name ".json") then pure tt else apply_content e.content

unfoldable pub apply_each : List DirEntry → M (Unit {0})
unfolding apply_entry
apply_each [] = pure tt
apply_each (e ∷ es) = apply_entry e >> apply_each es

-- recordResult at the time `now`. The error text is empty without an error.
unfoldable pub record_result : Config → ℤ → String → String → Status → Status
record_result cfg now commit error st = record {
  repo_url = cfg.repo_url;
  branch = cfg.branch;
  path = cfg.path;
  last_sync_unix = now;
  last_commit = if commit == "" then st.last_commit else commit;
  last_error = error;
}

abbrev pub commit_of : Attempt String → String
commit_of (success c) = c
commit_of (failure e) = ""

abbrev pub World : Type 0
World = Status × Cluster

abbrev pub applied :
    Config → ℤ → String → Attempt (List DirEntry) → World → Attempt (Unit {0}) × World
applied cfg now commit (failure e) (st, s) =
    (failure ("gitops: read manifest dir: " ++ e), (record_result cfg now commit e st, s))
applied cfg now commit (success es) (st, s) =
    (success tt, (record_result cfg now commit "" st, (apply_each es s).1))

abbrev pub fetched : Config → ℤ → Checkout → Attempt (Unit {0}) → World → Attempt (Unit {0}) × World
fetched cfg now c (failure e) (st, s) =
    (failure ("gitops: fetch: " ++ e), (record_result cfg now "" e st, s))
fetched cfg now c (success u) w = applied cfg now (commit_of c.head_commit) c.entries w

-- Sync
unfoldable pub sync : Config → ℤ → Checkout → World → Attempt (Unit {0}) × World
unfolding apply_each record_result
sync cfg now c w = fetched cfg now c c.fetch w
