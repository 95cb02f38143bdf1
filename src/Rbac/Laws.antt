-- ===== src/Rbac/Laws.antt =====
-- What `Allow` decides, as a statement about the bindings.
use nimbuscore.Prelude.{
  String, ◌≡◌, ◌↔◌, ◌⊎◌, inl, inr, true, ◌||◌, List, any-Has, Has-any, Has, here, there, In,
  has_prefix, arith, Bool-cases, eq_iff, &&_iff, ◌==◌,
}
use nimbuscore.Rbac.{
  Rule, Binding, Authorizer, wildcard, contains, rule_allows, role_allows, binding_allows, allow,
}

-- The list names the word, or holds the wildcard.
abbrev pub Names : List String → String → Type 0
Names xs a = In wildcard xs ⊎ In a xs

abbrev pub Grants : String → String → Rule → Type 0
Grants resource verb r = Names r.resources resource × Names r.verbs verb

In-of_contains : (xs : List String) (a : String) → contains xs a ≡ true → In a xs
In-of_contains xs a h = go (any-Has (λ x. x == a) xs h)
  where
    go : {ys : List String} → Has (λ x. (x == a) ≡ true) ys → In a ys
    go (here e) = here ((eq_iff _ a).0 e)
    go (there m) = there (go m)

contains-of_In : (a : String) {xs : List String} → In a xs → contains xs a ≡ true
contains-of_In a (here {x = x} e) = ground (arith, (eq_iff x a).1 e)
contains-of_In a (there m) = ground (arith, contains-of_In a m)

Names-iff :
    (xs : List String) (a : String) → ((contains xs wildcard || contains xs a) ≡ true) ↔ Names xs a
Names-iff xs a = (
  λ h. elim (Bool-cases (contains xs wildcard)) [
    | inl e ↦ inl (In-of_contains xs wildcard e)
    | inr e ↦ inr (In-of_contains xs a (ground arith))
  ],
  elim [
    | inl m ↦ ground (arith, contains-of_In wildcard m)
    | inr m ↦ ground (arith, contains-of_In a m)
  ],
)

Grants-iff :
    (resource verb : String) (r : Rule)
    → (rule_allows resource verb r ≡ true) ↔ Grants resource verb r
unfolding rule_allows
Grants-iff resource verb r = (
  λ h. (
    (Names-iff r.resources resource).0 ((&&_iff _ _).0 h).0,
    (Names-iff r.verbs verb).0 ((&&_iff _ _).0 h).1,
  ),
  λ g. (&&_iff _ _).1 ((Names-iff r.resources resource).1 g.0, (Names-iff r.verbs verb).1 g.1),
)

Has-map {ℓ κ μ} :
    {A : Type ℓ} {P : A → Type κ} {Q : A → Type μ} {xs : List A}
    → ((a : A) → P a → Q a)
    → Has P xs
    → Has Q xs
Has-map f (here {x = x} p) = here (f x p)
Has-map f (there h) = there (Has-map f h)

-- The binding is for the identity, and one of its rules grants the request.
abbrev pub Permits : String → String → String → Binding → Type 0
Permits id_path resource verb b =
    (has_prefix id_path b.path_prefix ≡ true) × Has (Grants resource verb) b.role.rules

Permits-iff :
    (id_path resource verb : String) (b : Binding)
    → (binding_allows id_path resource verb b ≡ true) ↔ Permits id_path resource verb b
unfolding role_allows
Permits-iff id_path resource verb b = (
  λ h. (
    ((&&_iff _ _).0 h).0,
    Has-map (λ r. (Grants-iff resource verb r).0) (any-Has _ b.role.rules ((&&_iff _ _).0 h).1),
  ),
  λ p. (&&_iff _ _).1 (p.0, Has-any _ (Has-map (λ r. (Grants-iff resource verb r).1) p.1)),
)

-- A request is allowed exactly when some binding whose prefix begins the identity's path has a rule
-- that names the resource and the verb, each by its own word or by the wildcard.
pub allow_iff :
    (bindings : Authorizer) (id_path resource verb : String)
    → (allow bindings id_path resource verb ≡ true) ↔ Has (Permits id_path resource verb) bindings
unfolding allow
allow_iff bindings id_path resource verb = (
  λ h. Has-map (λ b. (Permits-iff id_path resource verb b).0) (any-Has _ bindings h),
  λ p. Has-any _ (Has-map (λ b. (Permits-iff id_path resource verb b).1) p),
)
