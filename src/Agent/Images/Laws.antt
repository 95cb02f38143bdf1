-- ===== src/Agent/Images/Laws.antt =====
-- Completing a reference twice changes nothing more, and what it gives names a registry and a version.
use Prim.Native.String.{◌++◌}
use text.Mathlib.TextLemmas.{cons-append, nil-append, append_assoc}
use nimbuscore.Prelude.{
  ℕ, ◌<◌, ltb→lt, String, true, ◌||◌, ◌⊎◌, inl, inr, ◌≡◌, refl, sym, ap, ◌∙◌, subst, arith, ltb,
  has_prefix, strip, strip_inv, ◌==◌, Bool-cases, Option-cases,
}
use nimbuscore.Cluster.Keys.{has_prefix-append}
use nimbuscore.Agent.Images.{
  contains_char, first_segment, last_index, expand_registry, ensure_tag_or_digest,
  resolve_image_ref,
}

contains-append :
    (c : ℕ) (s t : String) → contains_char c (s ++ t) ≡ (contains_char c s || contains_char c t)
unfolding contains_char
contains-append c String.[] t = ap (contains_char c) (nil-append t)
contains-append c (String.◌∷◌ d s) t =
    rw (cons-append d s t) (ground (arith, contains-append c s t))

first_segment-append :
    (s t : String) → contains_char b'/' s ≡ true → first_segment (s ++ t) ≡ first_segment s
unfolding first_segment contains_char
first_segment-append String.[] t h = ground arith
first_segment-append (String.◌∷◌ d s) t h =
    rw (cons-append d s t) (ground (arith, first_segment-append s t))

prefix-append : (p s t : String) → has_prefix s p ≡ true → has_prefix (s ++ t) p ≡ true
unfolding has_prefix
prefix-append p s t h = elim (Option-cases (strip p s)) [
  | inl e ↦ ground arith
  | inr (r, e) ↦
      subst (λ x. has_prefix x p ≡ true)
        (sym (ap (λ x. x ++ t) (strip_inv p s e) ∙ append_assoc p r t))
        (has_prefix-append p (r ++ t))
]

-- A reference that names its registry is left as it is, and a longer one too.
abbrev pub IsNamed : String → Type 0
IsNamed s =
    (has_prefix s "docker.io/" ≡ true)
    ⊎ (has_prefix s "localhost/" ≡ true)
    ⊎ ((contains_char b'/' s ≡ true)
        × (((contains_char b'.' (first_segment s) || contains_char b':' (first_segment s))
              || first_segment s == "localhost")
            ≡ true))

IsNamed-append : (s t : String) → IsNamed s → IsNamed (s ++ t)
IsNamed-append s t (inl h) = inl (prefix-append "docker.io/" s t h)
IsNamed-append s t (inr (inl h)) = inr (inl (prefix-append "localhost/" s t h))
IsNamed-append s t (inr (inr h)) =
    inr (inr (rw (contains-append b'/' s t) (ground arith), rw (first_segment-append s t h.0) h.1))

expand-IsNamed : (s : String) → IsNamed s → expand_registry s ≡ s
unfolding expand_registry
expand-IsNamed s (inl h) = ground arith
expand-IsNamed s (inr (inl h)) = ground arith
expand-IsNamed s (inr (inr h)) = ground arith

IsNamed-of_prefix :
    (s : String) → (has_prefix s "docker.io/" || has_prefix s "localhost/") ≡ true → IsNamed s
IsNamed-of_prefix s h = elim (Bool-cases (has_prefix s "docker.io/")) [
  | inl e ↦ inl e
  | inr e ↦ inr (inl (ground arith))
]

IsNamed-of_segment :
    (s : String)
    → contains_char b'/' s ≡ true
    → ((contains_char b'.' (first_segment s) || contains_char b':' (first_segment s))
        || first_segment s == "localhost")
      ≡ true
    → IsNamed s
IsNamed-of_segment s m k = inr (inr (m, k))

docker-IsNamed : (s : String) → IsNamed ("docker.io/" ++ s)
docker-IsNamed s = inl (has_prefix-append "docker.io/" s)

library-IsNamed : (s : String) → IsNamed ("docker.io/library/" ++ s)
library-IsNamed s = inl (
    subst (λ t. has_prefix t "docker.io/" ≡ true) (sym (append_assoc "docker.io/" "library/" s))
      (has_prefix-append "docker.io/" ("library/" ++ s)))

expand_registry-IsNamed : (s : String) → IsNamed (expand_registry s)
unfolding expand_registry
expand_registry-IsNamed s =
    elim (Bool-cases (has_prefix s "docker.io/" || has_prefix s "localhost/")) [
      | inl h ↦ rw h (IsNamed-of_prefix s h)
      | inr n ↦ elim (Bool-cases (contains_char b'/' s)) [
        | inr m ↦ rw (n, m) (library-IsNamed s)
        | inl m ↦
            elim (Bool-cases (
              (contains_char b'.' (first_segment s) || contains_char b':' (first_segment s))
              || first_segment s == "localhost")) [
                | inl k ↦ rw (n, m, k) (IsNamed-of_segment s m k)
                | inr k ↦ rw (n, m, k) (docker-IsNamed s)
              ]
      ]
    ]

-- A reference with a digest, or with a tag behind its last slash.
abbrev pub IsVersioned : String → Type 0
IsVersioned s = (contains_char b'@' s ≡ true) ⊎ (last_index b'/' s < last_index b':' s)

ensure-IsVersioned : (s : String) → IsVersioned s → ensure_tag_or_digest s ≡ s
unfolding ensure_tag_or_digest
ensure-IsVersioned s (inl h) = ground arith
ensure-IsVersioned s (inr h) = ground arith

-- The tag that is added stands behind every slash.
tag-behind :
    (s : String)
    → (last_index b'/' (s ++ ":latest") ≡ last_index b'/' s)
      × (last_index b'/' s < last_index b':' (s ++ ":latest"))
unfolding last_index
tag-behind String.[] = (refl, omega arith)
tag-behind (String.◌∷◌ d s) = rw (cons-append d s ":latest") (ground (arith, tag-behind s))

ensure_tag_or_digest-IsVersioned : (s : String) → IsVersioned (ensure_tag_or_digest s)
unfolding ensure_tag_or_digest
ensure_tag_or_digest-IsVersioned s = elim (Bool-cases (contains_char b'@' s)) [
  | inl h ↦ rw h (inl h)
  | inr n ↦ elim (Bool-cases (ltb (last_index b'/' s) (last_index b':' s))) [
    | inl h ↦ rw (n, h) (inr (ltb→lt _ _ h))
    | inr m ↦ rw (n, m) (inr (omega (arith, tag-behind s)))
  ]
]

ensure-IsNamed : (s : String) → IsNamed s → IsNamed (ensure_tag_or_digest s)
unfolding ensure_tag_or_digest
ensure-IsNamed s h = elim (Bool-cases (contains_char b'@' s)) [
  | inl e ↦ rw e h
  | inr n ↦ elim (Bool-cases (ltb (last_index b'/' s) (last_index b':' s))) [
    | inl e ↦ rw (n, e) h
    | inr m ↦ rw (n, m) (IsNamed-append s ":latest" h)
  ]
]

-- What a reference is completed to names its registry, has a digest or a tag behind its last slash,
-- and is left as it is when it is completed again.
resolve_image_ref_complete :
    (ref : String)
    → IsNamed (resolve_image_ref ref)
      × IsVersioned (resolve_image_ref ref)
      × (resolve_image_ref (resolve_image_ref ref) ≡ resolve_image_ref ref)
unfolding resolve_image_ref
resolve_image_ref_complete ref =
    let named = ensure-IsNamed (expand_registry ref) (expand_registry-IsNamed ref) in
    let versioned = ensure_tag_or_digest-IsVersioned (expand_registry ref) in
    (
      named,
      versioned,
      ap ensure_tag_or_digest (expand-IsNamed (ensure_tag_or_digest (expand_registry ref)) named)
          ∙ ensure-IsVersioned (ensure_tag_or_digest (expand_registry ref)) versioned,
    )
