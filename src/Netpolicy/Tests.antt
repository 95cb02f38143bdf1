-- ===== src/Netpolicy/Tests.antt =====
-- One policy that lets a web pod reach a database.
use nimbuscore.Prelude.{List, [], ◌∷◌, ◌≡◌, ◌↔◌, pos, true, Has, ◌==◌}
use nimbuscore.Netpolicy.{Policy, allowed}
use nimbuscore.Netpolicy.Laws.{Lets, allowed_iff}

abbrev policies : List Policy
policies =
    record {
      pod_selector = ("app", "db") ∷ [];
      ingress =
          record {
            ports = record { protocol = "tcp"; port = pos 5432 } ∷ [];
            peers = (("app", "web") ∷ []) ∷ [];
          }
          ∷ [];
    }
    ∷ []

allowed_iff_example :
    (allowed ◌==◌ policies (("app", "web") ∷ []) (("app", "db") ∷ []) "tcp" (pos 5432) ≡ true)
    ↔ Has (Lets ◌==◌ "tcp" (pos 5432) (("app", "web") ∷ []) (("app", "db") ∷ [])) policies
allowed_iff_example =
    allowed_iff ◌==◌ policies (("app", "web") ∷ []) (("app", "db") ∷ []) "tcp" (pos 5432)
