-- ===== src/Gitops/Tests.antt =====
-- One round of synchronisation over two files.
use nimbuscore.Prelude.{pos, true, false, List, [], ◌∷◌, ◌≡◌, refl}
use nimbuscore.Fixtures.{one_pod, web}
use nimbuscore.Cluster.{Cluster}
use nimbuscore.Gitops.{
  Config, Status, DirEntry, unreadable, manifest, success, Checkout, sync, record_result,
}
use nimbuscore.Gitops.Laws.{IsKeptOrManaged, sync-IsKeptOrManaged}

abbrev config : Config
config = record { repo_url = "https://git.example/shop"; branch = "main"; path = "deploy" }

abbrev start : Status
start = record {
  repo_url = "https://git.example/shop";
  branch = "main";
  path = "deploy";
  last_sync_unix = pos 0;
  last_commit = "";
  last_error = "failed before";
}

abbrev files : List DirEntry
files =
    record { name = "web.json"; is_dir = false; content = manifest (web (pos 3)) }
    ∷ record { name = "README.md"; is_dir = false; content = unreadable }
    ∷ []

abbrev checkout : Checkout
checkout = record { fetch = success tt; head_commit = success "abc"; entries = success files }

sync-IsKeptOrManaged_example :
    IsKeptOrManaged "/registry/deployments/a/web" one_pod
      (sync config (pos 9) checkout (start, one_pod)).1.1
sync-IsKeptOrManaged_example =
    sync-IsKeptOrManaged config (pos 9) checkout start one_pod "/registry/deployments/a/web"

-- A store that fails every write.
abbrev down : Cluster
down = record one_pod { fails = λ n. true }

-- Nothing is applied, and the round counts as one without an error.
errors_are_forgotten : (sync config (pos 9) checkout (start, down)).1.0.last_error ≡ ""
unfolding sync record_result
errors_are_forgotten = refl
