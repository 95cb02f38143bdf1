-- ===== src/Disk/Laws.antt =====
-- Lookups after the calls.
use nimbuscore.Prelude.{
  String, Bool, true, false, List, [], ◌∷◌, Option, none, some, ◌≡◌, ◌↔◌, refl, ap, arith, eq_iff,
  Bool-cases, Option-cases, if◌then◌else◌, &&_iff_of, keep, inl, inr, subst, sym,
}
use nimbuscore.Paths.{FilePath, is_within}
use nimbuscore.Disk.{
  Entry, directory, file, link, Entries, same_segments, same_bool, same, find, place, entered, into,
  follow, extend, ensure_each, is_outside, is_other,
}

same_segments_iff : (l r : List String) → (same_segments l r ≡ true) ↔ (l ≡ r)
unfolding same_segments
same_segments_iff [] [] = (λ h. refl, λ h. refl)
same_segments_iff [] (t ∷ r) = (λ h. ground arith, λ h. ground arith)
same_segments_iff (s ∷ l) [] = (λ h. ground arith, λ h. ground arith)
same_segments_iff (s ∷ l) (t ∷ r) = (
  λ h. ground (arith, (&&_iff_of (eq_iff s t) (same_segments_iff l r)).0 h),
  λ h. (&&_iff_of (eq_iff s t) (same_segments_iff l r)).1 (cc, cc),
)

same_bool_iff : (a b : Bool) → (same_bool a b ≡ true) ↔ (a ≡ b)
unfolding same_bool
same_bool_iff true b = (λ h. ground arith, λ h. ground arith)
same_bool_iff false b = (λ h. ground arith, λ h. ground arith)

pub same_iff : (p q : FilePath) → (same p q ≡ true) ↔ (p ≡ q)
unfolding same
same_iff p q = (
  λ h.
      (ground (
        arith,
        (&&_iff_of (same_bool_iff p.rooted q.rooted) (same_segments_iff p.segments q.segments)).0 h,
      )),
  λ h.
      (&&_iff_of (same_bool_iff p.rooted q.rooted) (same_segments_iff p.segments q.segments)).1
        (ap (λ (t : FilePath). t.rooted) h, ap (λ (t : FilePath). t.segments) h),
)

pub find-place :
    (p q : FilePath) (e : Entry) (l : Entries)
    → find q (place p e l) ≡ (if same p q then some e else find q l)
unfolding find place
find-place p q e [] = refl
find-place p q e ((r, d) ∷ l) =
    ground (arith, find-place p q e l, same_iff r p, same_iff r q, same_iff p q)

-- An entry that stays in a list that keeps it.
find-keep :
    (t : FilePath × Entry → Bool) (p : FilePath) (l : Entries)
    → ((e : Entry) → t (p, e) ≡ true)
    → find p (keep t l) ≡ find p l
unfolding find
find-keep t p [] h = refl
find-keep t p ((q, e) ∷ l) h = elim (Bool-cases (same q p)) [
  | inl s ↦
      subst (λ (r : FilePath). find p (keep t ((r, e) ∷ l)) ≡ find p ((r, e) ∷ l))
        (sym ((same_iff q p).0 s)) (ground (arith, h e, (same_iff p p).1 refl))
  | inr s ↦ ground (arith, find-keep t p l h)
]

pub find-removed :
    (p q : FilePath) (l : Entries)
    → find q (keep (is_outside p) l) ≡ (if is_within p q then none else find q l)
unfolding find
find-removed p q [] = ground arith
find-removed p q ((r, e) ∷ l) = elim (Bool-cases (same r q)) [
  | inl s ↦
      subst
        (λ (t : FilePath).
          find q (keep (is_outside p) ((t, e) ∷ l))
          ≡ (if is_within p q then none else find q ((t, e) ∷ l)))
        (sym ((same_iff r q).0 s)) (ground (arith, find-removed p q l, (same_iff q q).1 refl))
  | inr s ↦ ground (arith, find-removed p q l)
]

pub find-unlinked :
    (p q : FilePath) (l : Entries)
    → find q (keep (is_other p) l) ≡ (if same p q then none else find q l)
unfolding find
find-unlinked p q [] = ground arith
find-unlinked p q ((r, e) ∷ l) =
    ground (arith, find-unlinked p q l, same_iff r p, same_iff r q, same_iff p q)

-- The entries of the first list stand in the second.
abbrev pub Keeps : (FilePath → Bool) → Entries → Entries → Type 0
Keeps t l m = (q : FilePath) (e : Entry) → t q ≡ true → find q l ≡ some e → find q m ≡ some e

entered-find :
    (p q : FilePath) (e : Entry) (l : Entries) (r : FilePath) (m : Entries)
    → entered p (find p l) l ≡ some (r, m)
    → find q l ≡ some e
    → find q m ≡ some e
entered-find p q e l r m h k = go (find p l) refl h
  where
    behind : (o : Option FilePath) → into l o ≡ some (r, m) → find q m ≡ some e
    behind none g = ground arith
    behind (some t) g = ground arith

    go : (o : Option Entry) → find p l ≡ o → entered p o l ≡ some (r, m) → find q m ≡ some e
    go none at g = ground (arith, find-place p q directory l, same_iff p q)
    go (some directory) at g = ground arith
    go (some (file b)) at g = ground arith
    go (some (link t)) at g = behind (follow l p) g

-- Directories are made beside what is there.
pub ensure_each-find :
    (p : FilePath) (r : List String) (l : Entries) {m : Entries} (q : FilePath) (e : Entry)
    → ensure_each p r l ≡ some m
    → find q l ≡ some e
    → find q m ≡ some e
unfolding ensure_each
ensure_each-find p [] l q e h k = ground arith
ensure_each-find p (s ∷ r) l {m = m} q e h k =
    elim (Option-cases (entered (extend p s) (find (extend p s) l) l)) [
      | inl none_made ↦ ground arith
      | inr ((t, made), at) ↦
          ensure_each-find t r made q e (ground arith) (entered-find (extend p s) q e l t made at k)
    ]
