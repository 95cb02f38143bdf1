-- ===== src/Controller/Autoscaler/Tests.antt =====
-- The autoscaler on a small cluster.
use nimbuscore.Prelude.{
  ℕ, ◌+◌, ◌*◌, ◌/◌, ◌-◌, ℤ, pos, pos_part, List, [], ◌∷◌, length, lookup_or, ◌≡◌, refl, arith,
}
use nimbuscore.Fixtures.{one_pod, web, pod_on}
use nimbuscore.Api.{
  Pod, Deployment, zero_container, zero_pod_spec, zero_pod_status, zero_resources, phase_running,
}
use nimbuscore.Cluster.{Cluster}
use nimbuscore.Controller.Autoscaler.{reconcile_one, used_memory}
use nimbuscore.Controller.Autoscaler.Laws.{IsKeptOrBounded, reconcile_one-IsBounded}

abbrev sum : List ℤ → ℕ
sum [] = 0
sum (n ∷ ns) = pos_part n + sum ns

-- The count without rounding on the way.
abbrev exact : List ℤ → ℤ → ℤ → ℤ
exact used target current =
    let per = pos_part target * length used in pos ((sum used * pos_part current + per - 1) / per)

-- One to four replicas that ask for 100 bytes each.
abbrev elastic : Deployment
elastic = record (web (pos 1)) {
  spec = record (web (pos 1)).spec {
    min_replicas = pos 1;
    max_replicas = pos 4;
    template = record zero_pod_spec {
      containers =
          record zero_container {
            resources = record {
              requests = record zero_resources { memory_bytes = pos 100 };
              limits = zero_resources;
            };
          }
          ∷ [];
    };
  };
}

abbrev busy : Pod
busy = record (pod_on "web-0" "n1") {
  status = record zero_pod_status { phase = phase_running; memory_usage_bytes = pos 250 };
}

abbrev loaded : Cluster
loaded = record one_pod {
  pods = ("/registry/pods/a/web-0", busy) ∷ [];
  deployments = ("/registry/deployments/a/web", elastic) ∷ [];
}

-- The pod uses two and a half times what it asked for.
asks_for_three : exact (used_memory elastic (busy ∷ [])) (pos 100) (pos 1) ≡ pos 3
unfolding used_memory lookup_or
asks_for_three = refl

reconcile_one-IsBounded_example :
    IsKeptOrBounded elastic "/registry/deployments/a/web" loaded
      (reconcile_one exact elastic loaded).1
reconcile_one-IsBounded_example =
    reconcile_one-IsBounded exact elastic 1 4 "/registry/deployments/a/web" loaded refl refl
      (ground arith) (ground arith)
