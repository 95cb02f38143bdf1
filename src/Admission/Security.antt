-- ===== src/Admission/Security.antt =====
-- internal/admission/security.go: no privileged containers, and only capabilities of a list.
pub mod Laws
use nimbuscore.Prelude.{
  String, Bool, true, false, List, [], ◌∷◌, Option, none, some, all, ◌==◌, if◌then◌else◌,
}
use nimbuscore.Api.{Container, SecurityContext}
use nimbuscore.Cluster.{Result, ok, err, denied, M, pure, raise}
use nimbuscore.Rbac.{contains}
use nimbuscore.Admission.{Request, Validator}

abbrev pub default_seccomp_profile : String
default_seccomp_profile = "RuntimeDefault"

abbrev pub with_profile : SecurityContext → SecurityContext
with_profile sc = record sc {
  seccomp_profile =
      if sc.seccomp_profile == "" then default_seccomp_profile else sc.seccomp_profile;
}

-- The texts of the errors leave out the names that the code puts into them.
unfoldable pub checked : List String → Container → Result Container
checked allowed c =
    let sc = with_profile c.security_context in
    if sc.privileged
    then err (denied "privileged containers are not permitted")
    else (if sc.allow_privilege_escalation
        then err (denied "privilege escalation is not permitted")
        else (if all (contains allowed) sc.add_capabilities
            then ok (record c { security_context = sc })
            else err (denied "capability is not in the cluster's allowlist")))

abbrev pub and_then : {A B : Type 0} → Result A → (A → Result B) → Result B
and_then (ok a) f = f a
and_then (err e) f = err e

-- The loop over the containers.
unfoldable pub checked_all : List String → List Container → Result (List Container)
unfolding checked
checked_all allowed [] = ok []
checked_all allowed (c ∷ cs) =
    let rest = checked_all allowed cs in
    and_then (checked allowed c) (λ d. and_then rest (λ ds. ok (d ∷ ds)))

abbrev pub lifted : {A : Type 0} → Result A → M A
lifted (ok a) = pure a
lifted (err e) = raise e

abbrev pub with_containers : Request → List Container → Request
with_containers req cs = record req { spec = record req.spec { containers = cs } }

-- SecurityContextPolicy.Admit
unfoldable pub admit_security : List String → Validator
unfolding checked_all
admit_security allowed req =
    lifted (and_then (checked_all allowed req.spec.containers) (λ cs. ok (with_containers req cs)))
