-- ===== src/Apiserver/Services/Allotted.antt =====
-- The node ports of the stored services, and which ports are free for one more.
use nimbuscore.Prelude.{
  ◌≡◌, ◌≢◌, ◌∙◌, subst, sym, ap, inl, inr, String, Bool, true, false, not, ◌&&◌, List, [], ◌∷◌,
  some, any, ℤ, pos, eq_ℤ_iff, Assoc, lookup, insert, lookup-insert, has_prefix, In, here, there,
  arith, Bool-cases, Has, Has-any, &&_iff, eq_iff, ◌==◌, if◌then◌else◌,
}
use nimbuscore.Api.{Service}
use nimbuscore.Cluster.{Cluster, unavailable, ok, err, key, list_prefix, listed, services, list}
use nimbuscore.Cluster.Keys.{key-has_prefix}
use nimbuscore.Apiserver.Services.{has_port, is_named, taken_by_other}

-- Each service stands under its own key, and no two have one node port, other than 0.
pub record IsAllotted (m : Assoc Service) : Type 0 where
  pub keyed :
      (k : String) (x : Service)
      → lookup k m ≡ some x
      → k ≡ key "services" x.metadata.namespace x.metadata.name
  pub apart :
      (k j : String) (x y : Service)
      → lookup k m ≡ some x
      → lookup j m ≡ some y
      → x.spec.node_port ≡ y.spec.node_port
      → x.spec.node_port ≢ pos 0
      → k ≡ j

-- The port is no other service's.
abbrev pub IsFreeFor : String → ℤ → Assoc Service → Type 0
IsFreeFor k port m =
    (j : String) (y : Service) → lookup j m ≡ some y → y.spec.node_port ≡ port → j ≡ k

abbrev pub key_of : Service → String
key_of s = key "services" s.metadata.namespace s.metadata.name

some_injective : {a b : Service} → some a ≡ some b → a ≡ b
some_injective h = cc

pub inserted :
    (s : Service) (m : Assoc Service)
    → IsAllotted m
    → IsFreeFor (key "services" s.metadata.namespace s.metadata.name) s.spec.node_port m
    → IsAllotted (insert (key "services" s.metadata.namespace s.metadata.name) s m)
inserted s m h f = record {
  keyed = λ k x l. keyed_in k x (sym (lookup-insert (key_of s) k s m) ∙ l);
  apart = λ k j x y l n e z.
      apart_in k j x y (sym (lookup-insert (key_of s) k s m) ∙ l)
        (sym (lookup-insert (key_of s) j s m) ∙ n) e z;
}
  where
    keyed_in :
        (k : String) (x : Service)
        → (if key_of s == k then some s else lookup k m) ≡ some x
        → k ≡ key_of x
    keyed_in k x l = elim (Bool-cases (key_of s == k)) [
      | inl w ↦ sym ((eq_iff _ k).0 w) ∙ ap key_of (some_injective (rw w at l))
      | inr w ↦ h.keyed k x (rw w at l)
    ]

    apart_in :
        (k j : String) (x y : Service)
        → (if key_of s == k then some s else lookup k m) ≡ some x
        → (if key_of s == j then some s else lookup j m) ≡ some y
        → x.spec.node_port ≡ y.spec.node_port
        → x.spec.node_port ≢ pos 0
        → k ≡ j
    apart_in k j x y l n e z = elim (Bool-cases (key_of s == k)) [
      | inl w ↦ elim (Bool-cases (key_of s == j)) [
        | inl v ↦ sym ((eq_iff _ k).0 w) ∙ (eq_iff _ j).0 v
        | inr v ↦
            sym ((eq_iff _ k).0 w)
            ∙ sym (
                f j y (rw v at n)
                  (sym e ∙ ap (λ t. t.spec.node_port) (sym (some_injective (rw w at l)))))
      ]
      | inr w ↦ elim (Bool-cases (key_of s == j)) [
        | inl v ↦
            f k x (rw w at l) (e ∙ ap (λ t. t.spec.node_port) (sym (some_injective (rw v at n))))
            ∙ (eq_iff _ j).0 v
        | inr v ↦ h.apart k j x y (rw w at l) (rw v at n) e z
      ]
    ]

listed-In :
    (prefix k : String) (x : Service) (m : Assoc Service)
    → has_prefix k prefix ≡ true
    → lookup k m ≡ some x
    → In x (listed prefix m)
unfolding listed lookup
listed-In prefix k x [] p h = absurd (ground arith)
listed-In prefix k x ((j, y) ∷ m) p h = elim (Bool-cases (j == k)) [
  | inl w ↦ rw ((eq_iff j k).0 w, p) (here (some_injective (rw w at h)))
  | inr w ↦ elim (Bool-cases (has_prefix j prefix)) [
    | inl q ↦ rw q (there (listed-In prefix k x m p (rw w at h)))
    | inr q ↦ rw q (listed-In prefix k x m p (rw w at h))
  ]
]

-- What a list of all services is, when it is one.
pub all_services :
    (c : Cluster) (all : List Service)
    → (list services "" c).0 ≡ ok all
    → all ≡ listed (list_prefix "services" "") c.services
unfolding list
all_services c all h = elim (Bool-cases (c.fails c.operations)) [
  | inl e ↦ absurd (failed (rw e at h))
  | inr e ↦ sym (ok_list (rw e at h))
]
  where
    failed : {l : List Service} → err unavailable ≢ ok l
    failed q = cc

    ok_list : {k l : List Service} → ok k ≡ ok l → k ≡ l
    ok_list q = cc

true-false : true ≢ false
true-false h = ground arith

stored-In :
    (c : Cluster) (k : String) (x : Service)
    → IsAllotted c.services
    → lookup k c.services ≡ some x
    → In x (listed (list_prefix "services" "") c.services)
stored-In c k x h l =
    listed-In _ k x c.services
      (subst (λ j. has_prefix j (list_prefix "services" "") ≡ true) (sym (h.keyed k x l))
        (key-has_prefix "services" x.metadata.namespace x.metadata.name))
      l

any-In :
    (p : Service → Bool) (y : Service) (all : List Service)
    → In y all
    → p y ≡ true
    → any p all ≡ true
any-In p y all m e = Has-any p (hit m)
  where
    hit : {ys : List Service} → In y ys → Has (λ x. p x ≡ true) ys
    hit (here q) = here (subst (λ x. p x ≡ true) (sym q) e)
    hit (there n) = there (hit n)

module _ (s : Service) (c : Cluster) (h : IsAllotted c.services) where
  -- A port that no listed service has is free.
  pub free_of_untaken :
      (all : List Service) (port : ℤ)
      → all ≡ listed (list_prefix "services" "") c.services
      → any (has_port port) all ≡ false
      → IsFreeFor (key_of s) port c.services
  free_of_untaken all port q n j y l e = absurd (
      true-false (
        sym (
          any-In (has_port port) y all (subst (In y) (sym q) (stored-In c j y h l))
            ((eq_ℤ_iff _ _).1 e))
        ∙ n))

  -- A port that only the service itself has is free for it.
  pub free_of_own :
      (all : List Service)
      → all ≡ listed (list_prefix "services" "") c.services
      → taken_by_other s.spec.node_port s.metadata.namespace s.metadata.name all ≡ false
      → IsFreeFor (key_of s) s.spec.node_port c.services
  unfolding taken_by_other
  free_of_own all q n j y l e =
      elim (Bool-cases (is_named s.metadata.namespace s.metadata.name y)) [
        | inl w ↦
            h.keyed j y l
            ∙ ap (λ a. key "services" a y.metadata.name) ((eq_iff _ _).0 ((&&_iff _ _).0 w).0)
            ∙ ap (key "services" s.metadata.namespace) ((eq_iff _ _).0 ((&&_iff _ _).0 w).1)
        | inr w ↦ absurd (
            true-false (
              sym (
                any-In
                  (λ x.
                    has_port s.spec.node_port x
                    && not (is_named s.metadata.namespace s.metadata.name x))
                  y all (subst (In y) (sym q) (stored-In c j y h l))
                  (ground (arith, (eq_ℤ_iff y.spec.node_port s.spec.node_port).1 e)))
              ∙ n))
      ]
