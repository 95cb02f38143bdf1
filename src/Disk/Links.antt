-- ===== src/Disk/Links.antt =====
-- A disk without links: each path is what it leads to.
use mathlib.Core.List.{append-nil, append_assoc}
use nimbuscore.Prelude.{
  ℕ, zero, suc, String, Bool, true, false, List, [], ◌∷◌, ◌++◌, Option, none, some, ◌≡◌, refl, ap,
  sym, subst, ◌∙◌, arith, All, Option-cases, inl, inr, Bool-cases,
}
use nimbuscore.Paths.{FilePath, parent, but_last}
use nimbuscore.Disk.{
  Entry, directory, file, link, Entries, same, find, place, walk, at_entry, chase, follow,
  follow_parent, extend, entered, into, ensure_each, top, max_links, below, last_of,
}

abbrev pub is_link : Entry → Bool
is_link directory = false
is_link (file b) = false
is_link (link t) = true

abbrev pub HasNoLinks : Entries → Type 0
HasNoLinks = All (λ e. is_link e.1 ≡ false)

abbrev pub is_link_at : Option Entry → Bool
is_link_at none = false
is_link_at (some e) = is_link e

find-HasNoLinks : (p : FilePath) (l : Entries) → HasNoLinks l → is_link_at (find p l) ≡ false
unfolding find
find-HasNoLinks p [] h = refl
find-HasNoLinks p ((q, e) ∷ l) h = ground (arith, h.0, find-HasNoLinks p l h.1)

pub at_entry-onwards :
    (jump : FilePath → List String → Option FilePath) (p : FilePath) (r : List String)
    (onwards : Option FilePath) (o : Option Entry)
    → is_link_at o ≡ false
    → at_entry jump p r onwards o ≡ onwards
at_entry-onwards jump p r onwards none h = refl
at_entry-onwards jump p r onwards (some directory) h = refl
at_entry-onwards jump p r onwards (some (file b)) h = refl
at_entry-onwards jump p r onwards (some (link t)) h = ground arith

walk-HasNoLinks :
    (jump : FilePath → List String → Option FilePath) (l : Entries) (p : FilePath) (r : List String)
    → HasNoLinks l
    → walk jump l p r ≡ some (record p { segments = p.segments ++ r })
unfolding walk
walk-HasNoLinks jump l p [] h =
    ap (λ r. some (record p { segments = r })) (sym (append-nil p.segments))
walk-HasNoLinks jump l p (s ∷ r) h =
    at_entry-onwards jump p r (walk jump l (extend p s) r) (find (extend p s) l)
      (find-HasNoLinks (extend p s) l h)
    ∙ walk-HasNoLinks jump l (extend p s) r h
    ∙ ap (λ t. some (record p { segments = t })) (append_assoc p.segments (s ∷ []) r)

chase-HasNoLinks :
    (n : ℕ) (l : Entries) (p : FilePath) (r : List String)
    → HasNoLinks l
    → chase n l p r ≡ some (record p { segments = p.segments ++ r })
unfolding chase
chase-HasNoLinks zero l p r h = walk-HasNoLinks (λ t rest. none) l (top p) (p.segments ++ r) h
chase-HasNoLinks (suc n) l p r h = walk-HasNoLinks (chase n l) l (top p) (p.segments ++ r) h

pub follow-HasNoLinks : (l : Entries) (p : FilePath) → HasNoLinks l → follow l p ≡ some p
unfolding follow
follow-HasNoLinks l p h =
    chase-HasNoLinks max_links l p [] h
    ∙ ap (λ t. some (record p { segments = t })) (append-nil p.segments)

but_last-append : (s : String) (r : List String) → but_last (s ∷ r) ++ last_of (s ∷ r) ∷ [] ≡ s ∷ r
but_last-append s [] = refl
but_last-append s (t ∷ r) = ap (λ l. s ∷ l) (but_last-append t r)

parent_of_segments :
    (l : Entries) (b : Bool) (r : List String)
    → HasNoLinks l
    → follow_parent l (record { rooted = b; segments = r })
      ≡ some (record { rooted = b; segments = r })
unfolding follow_parent
parent_of_segments l b [] h = refl
parent_of_segments l b (s ∷ r) h =
    ap (below (last_of (s ∷ r)))
      (follow-HasNoLinks l (parent (record { rooted = b; segments = s ∷ r })) h)
    ∙ unfold parent in ap (λ t. some (record { rooted = b; segments = t })) (but_last-append s r)

pub follow_parent-HasNoLinks :
    (l : Entries) (p : FilePath) → HasNoLinks l → follow_parent l p ≡ some p
follow_parent-HasNoLinks l p h = parent_of_segments l p.rooted p.segments h

pub place-HasNoLinks :
    (p : FilePath) (e : Entry) (l : Entries)
    → is_link e ≡ false
    → HasNoLinks l
    → HasNoLinks (place p e l)
unfolding place
place-HasNoLinks p e [] n h = (n, tt)
place-HasNoLinks p e ((q, d) ∷ l) n h = elim (Bool-cases (same q p)) [
  | inl s ↦ rw s (n, h.1)
  | inr s ↦ rw s (h.0, place-HasNoLinks p e l n h.1)
]

entered-HasNoLinks :
    (p : FilePath) (o : Option Entry) (l : Entries) {r : FilePath} {m : Entries}
    → entered p o l ≡ some (r, m)
    → HasNoLinks l
    → HasNoLinks m
entered-HasNoLinks p none l e h =
    subst HasNoLinks (ground arith) (place-HasNoLinks p directory l refl h)
entered-HasNoLinks p (some directory) l e h = subst HasNoLinks (ground arith) h
entered-HasNoLinks p (some (file b)) l e h = absurd (ground arith)
entered-HasNoLinks p (some (link t)) l {r = r} {m = m} e h = behind (follow l p) e
  where
    behind : (o : Option FilePath) → into l o ≡ some (r, m) → HasNoLinks m
    behind none g = absurd (ground arith)
    behind (some q) g = subst HasNoLinks (ground arith) h

pub ensure_each-HasNoLinks :
    (p : FilePath) (r : List String) (l : Entries) {m : Entries}
    → ensure_each p r l ≡ some m
    → HasNoLinks l
    → HasNoLinks m
unfolding ensure_each
ensure_each-HasNoLinks p [] l e h = subst HasNoLinks (ground arith) h
ensure_each-HasNoLinks p (s ∷ r) l e h =
    elim (Option-cases (entered (extend p s) (find (extend p s) l) l)) [
      | inl n ↦ absurd (ground arith)
      | inr ((q, made), at) ↦
          ensure_each-HasNoLinks q r made (ground arith)
            (entered-HasNoLinks (extend p s) (find (extend p s) l) l at h)
    ]
