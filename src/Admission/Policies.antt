-- ===== src/Admission/Policies.antt =====
-- internal/admission/policy.go and PodView of internal/policy/engine.go: policies are expressions
-- over a view of the pod. Compiling and evaluating them is the library's (cel-go), taken as
-- parameters of which the first gives a program or an error text, and the second a Boolean or one.
pub mod Cache
use Prim.Native.String
use nimbuscore.Prelude.{
  String, Bool, true, false, List, [], ◌∷◌, map, Option, none, some, Assoc, lookup, insert, ◌==◌,
  if◌then◌else◌,
}
use nimbuscore.Api.{Container, PodSpec, Policy}
use nimbuscore.Admission.{Request}

pub record ContainerView : Type 0 where
  pub name : String
  pub image : String
  pub privileged : Bool

pub record PodView : Type 0 where
  pub namespace : String
  pub labels : Assoc String
  pub containers : List ContainerView

abbrev pub container_view : Container → ContainerView
container_view c = record {
  name = c.name;
  image = c.image;
  privileged = c.security_context.privileged;
}

-- PodView
unfoldable pub pod_view : String → Assoc String → PodSpec → PodView
pod_view namespace labels spec = record {
  namespace = namespace;
  labels = labels;
  containers = map container_view spec.containers;
}

pub data Outcome (A : Type 0) : Type 0 where
  value : A → Outcome A
  failure : String → Outcome A

module _ {Program : Type 0} (compile : String → Outcome Program) where
  abbrev pub kept : String → Outcome Program → Assoc Program → Outcome Program × Assoc Program
  kept expression (failure e) cache = (failure e, cache)
  kept expression (value prg) cache = (value prg, insert expression prg cache)

  abbrev pub cached : String → Option Program → Assoc Program → Outcome Program × Assoc Program
  cached expression (some prg) cache = (value prg, cache)
  cached expression none cache = kept expression (compile expression) cache

  -- PolicyValidator.compile, on the map of compiled programs
  unfoldable pub compile_cached : String → Assoc Program → Outcome Program × Assoc Program
  compile_cached expression cache = cached expression (lookup expression cache) cache

  module _ (evaluate : Program → PodView → Outcome Bool) where
    abbrev pub message_of : Policy → String
    message_of pol = if pol.message == "" then "denied by policy" else pol.message

    -- What one policy says: an error text, or nothing.
    abbrev pub judged : Policy → Outcome Bool → Option String
    judged pol (failure e) = some e
    judged pol (value true) = none
    judged pol (value false) = some (message_of pol)

    abbrev pub evaluated : Policy → PodView → Outcome Program → Option String
    evaluated pol view (failure e) = some e
    evaluated pol view (value prg) = judged pol (evaluate prg view)

    abbrev pub unless_denied :
        Option String
        → Option String × Assoc Program
        → Assoc Program
        → Option String × Assoc Program
    unless_denied none rest cache = rest
    unless_denied (some e) rest cache = (some e, cache)

    -- The loop over the policies, on the map of compiled programs.
    unfoldable pub denial : List Policy → PodView → Assoc Program → Option String × Assoc Program
    unfolding compile_cached
    denial [] view cache = (none, cache)
    denial (pol ∷ pols) view cache =
        let (prg, next) = compile_cached pol.expression cache in
        let rest = denial pols view next in unless_denied (evaluated pol view prg) rest next

    -- PolicyValidator.Admit behind the listing of the policies
    unfoldable pub admit_policies :
        List Policy → Request → Assoc Program → Option String × Assoc Program
    unfolding denial pod_view
    admit_policies policies req cache =
        denial policies (pod_view req.namespace req.labels req.spec) cache

    -- PolicyValidator.Admit. A failed listing is an error, and leaves the map.
    unfoldable pub admit_listed :
        Outcome (List Policy) → Request → Assoc Program → Option String × Assoc Program
    unfolding admit_policies
    admit_listed (failure e) req cache = (some (String.◌++◌ "policy: list policies: " e), cache)
    admit_listed (value policies) req cache = admit_policies policies req cache
