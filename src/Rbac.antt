-- ===== src/Rbac.antt =====
-- internal/rbac/rbac.go: which identity may do what.
pub mod Laws
mod Tests
use nimbuscore.Prelude.{String, Bool, true, false, ◌&&◌, ◌||◌, List, [], ◌∷◌, any, has_prefix, ◌==◌}

abbrev pub wildcard : String
wildcard = "*"

pub record Rule : Type 0 where
  pub resources : List String
  pub verbs : List String

-- slices.Contains
abbrev pub contains : List String → String → Bool
contains xs a = any (λ x. x == a) xs

unfoldable pub rule_allows : String → String → Rule → Bool
rule_allows resource verb r =
    (contains r.resources wildcard || contains r.resources resource)
    && (contains r.verbs wildcard || contains r.verbs verb)

pub record Role : Type 0 where
  pub name : String
  pub rules : List Rule

unfoldable pub role_allows : String → String → Role → Bool
unfolding rule_allows
role_allows resource verb r = any (rule_allows resource verb) r.rules

pub record Binding : Type 0 where
  pub path_prefix : String
  pub role : Role

abbrev pub Authorizer : Type 0
Authorizer = List Binding

abbrev pub binding_allows : String → String → String → Binding → Bool
binding_allows id_path resource verb b =
    has_prefix id_path b.path_prefix && role_allows resource verb b.role

unfoldable pub allow : Authorizer → String → String → String → Bool
allow bindings id_path resource verb = any (binding_allows id_path resource verb) bindings
