-- ===== src/Apiserver/Policies.antt =====
-- internal/apiserver/policy_service.go. Compiling an expression is the library's (cel-go).
use nimbuscore.Prelude.{String, Bool, not, List, ◌==◌, if◌then◌else◌}
use nimbuscore.Api.{Policy}
use nimbuscore.Cluster.{M, pure, raise, ◌>>◌, policies, get, put, delete, list}
use nimbuscore.Apiserver.Codes.{answering, invalid_argument, internal, not_there}

-- CreatePolicy, where `compiles` says whether the expression compiles.
unfoldable pub create_policy : (String → Bool) → Policy → M Policy
create_policy compiles pol =
    if pol.metadata.name == ""
    then raise invalid_argument
    else if pol.expression == ""
    then raise invalid_argument
    else if not (compiles pol.expression)
    then raise invalid_argument
    else (answering internal (put policies "" pol.metadata.name pol) >> pure pol)

-- GetPolicy
unfoldable pub get_policy : String → M Policy
get_policy name = answering not_there (get policies "" name)

-- ListPolicies
unfoldable pub list_policies : M (List Policy)
list_policies = answering internal (list policies "")

-- DeletePolicy
unfoldable pub delete_policy : String → M (Unit {0})
delete_policy name = answering internal (delete policies "" name)
