-- ===== src/Agent/Loop/Assigned.antt =====
-- Which pods a reconciliation finds for its node.
use nimbuscore.Prelude.{
  insert, Has, String, List, [], ◌∷◌, Option, some, Assoc, lookup, lookup-insert, ◌==◌, eq_iff,
  if◌then◌else◌, ◌≡◌, refl, sym, ◌∙◌, subst, arith, Bool-cases, inl, inr, ◌⊎◌, In, here, there,
}
use nimbuscore.Api.{Pod}
use nimbuscore.Agent.Runtime.{pod_key}
use nimbuscore.Agent.Loop.{desired_pods}

-- The pod is assigned to the node and has the key.
abbrev pub IsAssigned : String → String → Pod → Type 0
IsAssigned node_name key p = (p.spec.node_name ≡ node_name) × (pod_key p ≡ key)

module _ (node_name key : String) where
  desired_next : Assoc Pod → Pod → Assoc Pod
  desired_next m p = if p.spec.node_name == node_name then insert (pod_key p) p m else m

  -- What stands under the key after one pod of the list.
  lookup-desired_next :
      (m : Assoc Pod) (p : Pod)
      → (IsAssigned node_name key p × (lookup key (desired_next m p) ≡ some p))
        ⊎ (¬ IsAssigned node_name key p × (lookup key (desired_next m p) ≡ lookup key m))
  unfolding desired_next
  lookup-desired_next m p = elim (Bool-cases (p.spec.node_name == node_name)) [
    | inr e ↦ inr (λ i. ground (arith, (eq_iff p.spec.node_name node_name).1 i.0), rw e refl)
    | inl e ↦ elim (Bool-cases (pod_key p == key)) [
      | inl f ↦ inl (
        ((eq_iff p.spec.node_name node_name).0 e, (eq_iff (pod_key p) key).0 f),
        rw e (lookup-insert (pod_key p) key p m ∙ rw f refl),
      )
      | inr f ↦ inr (
        λ i. ground (arith, (eq_iff (pod_key p) key).1 i.1),
        rw e (lookup-insert (pod_key p) key p m ∙ rw f refl),
      )
    ]
  ]

  -- What stands under the key in the end: the pod of before, where no pod of the list is assigned, or
  -- one of these.
  abbrev pub Found : Assoc Pod → List Pod → Option Pod → Type 0
  Found m ps o =
      ((Has (IsAssigned node_name key) ps → ⊥) × (o ≡ lookup key m))
      ⊎ ((p : Pod) × (o ≡ some p) × In p ps × IsAssigned node_name key p)

  behind_none :
      (p : Pod) (ps : List Pod)
      → ¬ IsAssigned node_name key p
      → ¬ Has (IsAssigned node_name key) ps
      → ¬ Has (IsAssigned node_name key) (p ∷ ps)
  behind_none p ps n k (here i) = n i
  behind_none p ps n k (there h) = k h

  pub lookup-desired_pods :
      (m : Assoc Pod) (ps : List Pod) → Found m ps (lookup key (desired_pods node_name m ps))
  unfolding desired_pods desired_next
  lookup-desired_pods m [] = inl (λ h. elim h [ ], refl)
  lookup-desired_pods m (p ∷ ps) = elim (lookup-desired_pods (desired_next m p) ps) [
    | inr (q, e, i, a) ↦ inr (q, e, there i, a)
    | inl (n, e) ↦ elim (lookup-desired_next m p) [
      | inl (a, f) ↦ inr (p, e ∙ f, here refl, a)
      | inr (k, f) ↦ inl (behind_none p ps k n, e ∙ f)
    ]
  ]

  pub In-Has :
      {p : Pod} {ps : List Pod}
      → In p ps
      → IsAssigned node_name key p
      → Has (IsAssigned node_name key) ps
  In-Has (here e) a = here (subst (IsAssigned node_name key) (sym e) a)
  In-Has (there i) a = there (In-Has i a)
