-- ===== src/Rbac/Tests.antt =====
-- Two bindings.
use nimbuscore.Prelude.{[], ◌∷◌, ◌≡◌, ◌↔◌, true, Has}
use nimbuscore.Rbac.{Authorizer, allow}
use nimbuscore.Rbac.Laws.{Permits, allow_iff}

abbrev bindings : Authorizer
bindings =
    record {
      path_prefix = "/node/";
      role = record {
        name = "node";
        rules = record { resources = "pods" ∷ []; verbs = "*" ∷ [] } ∷ [];
      };
    }
    ∷ record {
      path_prefix = "/client/";
      role = record {
        name = "c";
        rules = record { resources = "*" ∷ []; verbs = "get" ∷ [] } ∷ [];
      };
    }
    ∷ []

allow_iff_example :
    (allow bindings "/node/n1" "pods" "list" ≡ true)
    ↔ Has (Permits "/node/n1" "pods" "list") bindings
allow_iff_example = allow_iff bindings "/node/n1" "pods" "list"
