-- ===== src/Admission/Security/Laws.antt =====
-- Which pod templates the policy admits, and as what.
use nimbuscore.Prelude.{
  String, Option, none, some, if◌then◌else◌, ◌≡◌, refl, inl, inr, Bool, true, false, not, ◌&&◌,
  List, [], ◌∷◌, map, all, arith, Bool-cases,
}
use nimbuscore.Api.{Container}
use nimbuscore.Cluster.{Cluster, Result, ok, err}
use nimbuscore.Rbac.{contains}
use nimbuscore.Admission.{Request}
use nimbuscore.Admission.Security.{
  with_profile, checked, and_then, checked_all, lifted, with_containers, admit_security,
}

abbrev pub is_safe : List String → Container → Bool
is_safe allowed c =
    not c.security_context.privileged
    && not c.security_context.allow_privilege_escalation
    && all (contains allowed) c.security_context.add_capabilities

-- The container with its profile, and all else as it was.
abbrev pub with_default_profile : Container → Container
with_default_profile c = record c { security_context = with_profile c.security_context }

abbrev pub is_ok : {A : Type 0} → Result A → Bool
is_ok (ok a) = true
is_ok (err e) = false

checked_lem :
    (allowed : List String) (c : Container)
    → (is_safe allowed c ≡ true → checked allowed c ≡ ok (with_default_profile c))
      × (is_safe allowed c ≡ false → is_ok (checked allowed c) ≡ false)
unfolding checked
checked_lem allowed c = (λ h. ground arith, λ h. ground arith)

and_then-err :
    {A B : Type 0} (r : Result A) (f : A → Result B)
    → is_ok r ≡ false
    → is_ok (and_then r f) ≡ false
and_then-err (ok a) f h = absurd (ground arith)
and_then-err (err e) f h = refl

inner-err :
    {A B C : Type 0} (r : Result A) (s : Result B) (f : A → B → C)
    → is_ok s ≡ false
    → is_ok (and_then r (λ a. and_then s (λ b. ok (f a b)))) ≡ false
inner-err (ok a) s f h = and_then-err s _ h
inner-err (err e) s f h = refl

checked_all_lem :
    (allowed : List String) (cs : List Container)
    → (all (is_safe allowed) cs ≡ true → checked_all allowed cs ≡ ok (map with_default_profile cs))
      × (all (is_safe allowed) cs ≡ false → is_ok (checked_all allowed cs) ≡ false)
unfolding checked_all
checked_all_lem allowed [] = (λ h. refl, λ h. absurd (ground arith))
checked_all_lem allowed (c ∷ cs) = elim (Bool-cases (is_safe allowed c)) [
  | inr e ↦ (
    λ h. absurd (ground arith),
    λ h. and_then-err (checked allowed c) _ ((checked_lem allowed c).1 e),
  )
  | inl e ↦ (
    λ h. rw ((checked_lem allowed c).0 e, (checked_all_lem allowed cs).0 (ground arith)),
    λ h.
        inner-err (checked allowed c) (checked_all allowed cs) _
          ((checked_all_lem allowed cs).1 (ground arith)),
  )
]

-- A template whose containers are all safe is admitted, each container with a seccomp profile and
-- else unchanged, and the cluster is left as it was. A container is safe when it is not privileged,
-- may not escalate, and adds only capabilities of the list.
pub admit_security-safe :
    (allowed : List String) (req : Request) (s : Cluster)
    → all (is_safe allowed) req.spec.containers ≡ true
    → admit_security allowed req s
      ≡ (ok (with_containers req (map with_default_profile req.spec.containers)), s)
unfolding admit_security
admit_security-safe allowed req s h = rw ((checked_all_lem allowed req.spec.containers).0 h)

-- A template with a container that is not safe is refused, and the cluster is left as it was.
pub admit_security-unsafe :
    (allowed : List String) (req : Request) (s : Cluster)
    → all (is_safe allowed) req.spec.containers ≡ false
    → (is_ok (admit_security allowed req s).0 ≡ false) × ((admit_security allowed req s).1 ≡ s)
unfolding admit_security
admit_security-unsafe allowed req s h =
    refused (checked_all allowed req.spec.containers)
      ((checked_all_lem allowed req.spec.containers).1 h)
  where
    refused :
        (r : Result (List Container))
        → is_ok r ≡ false
        → (is_ok (lifted (and_then r (λ cs. ok (with_containers req cs))) s).0 ≡ false)
          × ((lifted (and_then r (λ cs. ok (with_containers req cs))) s).1 ≡ s)
    refused (ok a) h = absurd (ground arith)
    refused (err e) h = (refl, refl)

abbrev pub to_option : {A : Type 0} → Result A → Option A
to_option (ok a) = some a
to_option (err e) = none

refused-none : {A : Type 0} (r : Result A) → is_ok r ≡ false → to_option r ≡ none
refused-none (ok a) h = ground arith
refused-none (err e) h = refl

-- A template is admitted exactly when all its containers are safe: not privileged, not allowed to
-- escalate, and adding only capabilities of the list. It is admitted with a seccomp profile for each
-- container and else unchanged. The cluster is left as it was in either case.
pub admit_security_lem :
    (allowed : List String) (req : Request) (s : Cluster)
    → (to_option (admit_security allowed req s).0 ≡ (
        if all (is_safe allowed) req.spec.containers
        then some (with_containers req (map with_default_profile req.spec.containers))
        else none))
      × ((admit_security allowed req s).1 ≡ s)
admit_security_lem allowed req s = elim (Bool-cases (all (is_safe allowed) req.spec.containers)) [
  | inl e ↦ rw (e, admit_security-safe allowed req s e) (refl, refl)
  | inr e ↦
      let r = admit_security-unsafe allowed req s e in
      rw e (refused-none (admit_security allowed req s).0 r.0, r.1)
]
