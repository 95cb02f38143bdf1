-- ===== src/Admission/Policies/Cache.antt =====
-- Keeping compiled programs changes no decision.
use nimbuscore.Prelude.{
  String, ◌≡◌, refl, sym, subst, ap, ◌∙◌, inl, inr, Bool, List, [], ◌∷◌, Option, none, some, Assoc,
  lookup, lookup-insert, Bool-cases, Option-cases, eq_iff, ◌==◌, if◌then◌else◌,
}
use nimbuscore.Admission.{Request}
use nimbuscore.Admission.Policies.{
  PodView, pod_view, Policy, Outcome, value, failure, compile_cached, kept, evaluated,
  unless_denied, denial, admit_policies,
}

module _ {Program : Type 0} (compile : String → Outcome Program) where
  -- Each kept program is what compiling its expression gives.
  abbrev pub IsFaithful : Assoc Program → Type 0
  IsFaithful cache =
      (e : String) (prg : Program) → lookup e cache ≡ some prg → compile e ≡ value prg

  some_injective : {a b : Program} → some a ≡ some b → a ≡ b
  some_injective h = cc

  kept_lem :
      (e : String) (o : Outcome Program) (cache : Assoc Program)
      → compile e ≡ o
      → IsFaithful cache
      → ((kept compile e o cache).0 ≡ o) × IsFaithful (kept compile e o cache).1
  kept_lem e (failure m) cache q h = (refl, h)
  kept_lem e (value prg) cache q h =
      (refl, λ j other l. inserted j other (sym (lookup-insert e j prg cache) ∙ l))
    where
      inserted :
          (j : String) (other : Program)
          → (if e == j then some prg else lookup j cache) ≡ some other
          → compile j ≡ value other
      inserted j other l = elim (Bool-cases (e == j)) [
        | inl w ↦ rw (← (eq_iff e j).0 w, q) (ap value (some_injective (rw w at l)))
        | inr w ↦ h j other (rw w at l)
      ]

  compile_cached_lem :
      (e : String) (cache : Assoc Program)
      → IsFaithful cache
      → ((compile_cached compile e cache).0 ≡ compile e)
        × IsFaithful (compile_cached compile e cache).1
  unfolding compile_cached
  compile_cached_lem e cache h = elim (Option-cases (lookup e cache)) [
    | inl q ↦ rw q (kept_lem e (compile e) cache refl h)
    | inr (prg, q) ↦ rw q (sym (h e prg q), h)
  ]

  module _ (evaluate : Program → PodView → Outcome Bool) where
    -- The first policy that does not pass, each compiled anew.
    abbrev pub denied_by : List Policy → PodView → Option String
    denied_by [] view = none
    denied_by (pol ∷ pols) view =
        let rest = denied_by pols view in
        elim (evaluated compile evaluate pol view (compile pol.expression)) [
          | none ↦ rest
          | some e ↦ some e
        ]

    unless_denied_lem :
        (o p : Option String) (rest : Option String × Assoc Program) (cache : Assoc Program)
        (later : Option String)
        → o ≡ p
        → IsFaithful cache
        → (rest.0 ≡ later) × IsFaithful rest.1
        → ((unless_denied compile evaluate o rest cache).0
            ≡ elim p [ none ↦ later | some e ↦ some e ])
          × IsFaithful (unless_denied compile evaluate o rest cache).1
    unless_denied_lem none p rest cache later q h k =
        subst (λ x. (rest.0 ≡ elim x [ none ↦ later | some e ↦ some e ]) × IsFaithful rest.1) q k
    unless_denied_lem (some e) p rest cache later q h k =
        subst (λ x. (some e ≡ elim x [ none ↦ later | some e ↦ some e ]) × IsFaithful cache) q
          (refl, h)

    denial_lem :
        (pols : List Policy) (view : PodView) (cache : Assoc Program)
        → IsFaithful cache
        → ((denial compile evaluate pols view cache).0 ≡ denied_by pols view)
          × IsFaithful (denial compile evaluate pols view cache).1
    unfolding denial
    denial_lem [] view cache h = (refl, h)
    denial_lem (pol ∷ pols) view cache h =
        let (a, f) = compile_cached_lem pol.expression cache h in
        unless_denied_lem _ _
          (denial compile evaluate pols view (compile_cached compile pol.expression cache).1) _ _
          (ap (evaluated compile evaluate pol view) a) f (denial_lem pols view _ f)

    -- On a map that holds for each expression what compiling it gives, such as the empty map at the
    -- start, the validator decides as if it compiled each expression anew, and leaves such a map.
    pub admit_policies-cached :
        (policies : List Policy) (req : Request) (cache : Assoc Program)
        → IsFaithful cache
        → ((admit_policies compile evaluate policies req cache).0
            ≡ denied_by policies (pod_view req.namespace req.labels req.spec))
          × IsFaithful (admit_policies compile evaluate policies req cache).1
    unfolding admit_policies
    admit_policies-cached policies req cache h =
        denial_lem policies (pod_view req.namespace req.labels req.spec) cache h
