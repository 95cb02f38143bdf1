-- ===== src/Gitops/Laws.antt =====
-- What a round of synchronisation leaves in the store.
use nimbuscore.Prelude.{
  sym, subst, ℤ, String, not, ◌||◌, List, [], ◌∷◌, Option, none, some, lookup, lookup-insert, ◌==◌,
  ◌≡◌, ◌⊎◌, refl, ◌∙◌, arith, Bool-cases, inl, inr,
}
use nimbuscore.Api.{Deployment}
use nimbuscore.Cluster.{ok, Cluster, key, put, deployments}
use nimbuscore.Gitops.{
  Config, Status, Content, unreadable, unparsable, manifest, DirEntry, Attempt, success, failure,
  Checkout, managed, apply_manifest, apply_content, apply_entry, apply_each, sync, managed_by_label,
  managed_by_value, applied, fetched, has_suffix, commit_of,
}

-- A deployment is there, and is marked as managed by this reconciler.
abbrev pub IsManaged : Option Deployment → Type 0
IsManaged none = ⊥
IsManaged (some d) = lookup "nimbuscore.io/managed-by" d.metadata.labels ≡ some "gitops"

abbrev pub IsKeptOrManaged : String → Cluster → Cluster → Type 0
IsKeptOrManaged k s t =
    (lookup k t.deployments ≡ lookup k s.deployments) ⊎ IsManaged (lookup k t.deployments)

put-IsKeptOrManaged :
    (k : String) (d : Deployment) (s : Cluster)
    → IsKeptOrManaged k s (put deployments d.metadata.namespace d.metadata.name (managed d) s).1
unfolding put
put-IsKeptOrManaged k d s = elim (Bool-cases (s.fails s.operations)) [
  | inl down ↦ rw down (inl refl)
  | inr up ↦ elim (Bool-cases (key "deployments" d.metadata.namespace d.metadata.name == k)) [
    | inl e ↦
        rw
          (
            up,
            lookup-insert (key "deployments" d.metadata.namespace d.metadata.name) k (managed d)
                s.deployments,
            e,
          )
          (inr (lookup-insert managed_by_label managed_by_label managed_by_value d.metadata.labels))
    | inr e ↦
        rw
          (
            up,
            lookup-insert (key "deployments" d.metadata.namespace d.metadata.name) k (managed d)
                s.deployments,
            e,
          )
          (inl refl)
  ]
]

IsKeptOrManaged-trans :
    (k : String) (s t u : Cluster)
    → IsKeptOrManaged k s t
    → IsKeptOrManaged k t u
    → IsKeptOrManaged k s u
IsKeptOrManaged-trans k s t u (inl e) (inl f) = inl (f ∙ e)
IsKeptOrManaged-trans k s t u (inr m) (inl f) = inr (subst IsManaged (sym f) m)
IsKeptOrManaged-trans k s t u h (inr m) = inr m

apply_manifest-IsKeptOrManaged :
    (k : String) (d : Deployment) (s : Cluster) → IsKeptOrManaged k s (apply_manifest d s).1
apply_manifest-IsKeptOrManaged k d s = elim (Bool-cases (d.metadata.name == "")) [
  | inl e ↦ rw e (inl refl)
  | inr e ↦ rw e (put-IsKeptOrManaged k d s)
]

apply_content-IsKeptOrManaged :
    (k : String) (c : Content) (s : Cluster) → IsKeptOrManaged k s (apply_content c s).1
apply_content-IsKeptOrManaged k unreadable s = inl refl
apply_content-IsKeptOrManaged k unparsable s = inl refl
apply_content-IsKeptOrManaged k (manifest d) s = apply_manifest-IsKeptOrManaged k d s

apply_entry-IsKeptOrManaged :
    (k : String) (e : DirEntry) (s : Cluster) → IsKeptOrManaged k s (apply_entry e s).1
unfolding apply_entry
apply_entry-IsKeptOrManaged k e s =
    elim (Bool-cases (e.is_dir || not (has_suffix e.name ".json"))) [
      | inl h ↦ rw h (inl refl)
      | inr h ↦ rw h (apply_content-IsKeptOrManaged k e.content s)
    ]

apply_content-ok : (c : Content) (s : Cluster) → (apply_content c s).0 ≡ ok tt
apply_content-ok unreadable s = refl
apply_content-ok unparsable s = refl
apply_content-ok (manifest d) s = ground arith

apply_entry-ok : (e : DirEntry) (s : Cluster) → (apply_entry e s).0 ≡ ok tt
unfolding apply_entry
apply_entry-ok e s = ground (arith, apply_content-ok e.content s)

apply_each-IsKeptOrManaged :
    (k : String) (es : List DirEntry) (s : Cluster) → IsKeptOrManaged k s (apply_each es s).1
unfolding apply_each
apply_each-IsKeptOrManaged k [] s = inl refl
apply_each-IsKeptOrManaged k (e ∷ es) s = rw (apply_entry-ok e s) (
    IsKeptOrManaged-trans k s (apply_entry e s).1 (apply_each es (apply_entry e s).1).1
      (apply_entry-IsKeptOrManaged k e s) (apply_each-IsKeptOrManaged k es (apply_entry e s).1))

-- Whatever a round of synchronisation finds and however it ends, each key holds what it held before, be
-- it a deployment or nothing, or it holds a deployment that is labelled as managed by gitops.
pub sync-IsKeptOrManaged :
    (cfg : Config) (now : ℤ) (c : Checkout) (st : Status) (s : Cluster) (k : String)
    → IsKeptOrManaged k s (sync cfg now c (st, s)).1.1
unfolding sync
sync-IsKeptOrManaged cfg now c st s k = of_fetch c.fetch
  where
    of_entries :
        (commit : String) (es : Attempt (List DirEntry))
        → IsKeptOrManaged k s (applied cfg now commit es (st, s)).1.1
    of_entries commit (success es) = apply_each-IsKeptOrManaged k es s
    of_entries commit (failure e) = inl refl

    of_fetch : (f : Attempt (Unit {0})) → IsKeptOrManaged k s (fetched cfg now c f (st, s)).1.1
    of_fetch (success u) = of_entries (commit_of c.head_commit) c.entries
    of_fetch (failure e) = inl refl
