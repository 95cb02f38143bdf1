-- ===== src/Disk/Writes.antt =====
-- Writing a file makes no path lead elsewhere, so the file reads back.
use nimbuscore.Prelude.{
  ℕ, zero, suc, String, true, false, List, [], ◌∷◌, ◌++◌, Option, none, some, ◌≡◌, refl, ap, sym,
  ◌∙◌, subst, arith, Option-cases, inl, inr, Bool-cases,
}
use nimbuscore.Paths.{FilePath}
use nimbuscore.Disk.{
  Disk, Entry, directory, file, link, Entries, fine, same, find, place, walk, at_entry, target_from,
  chase, follow, extend, top, max_links, call, written, is_writable, write_file, read_file,
  contents,
}
use nimbuscore.Disk.Laws.{find-place, same_iff}
use nimbuscore.Disk.Links.{is_link_at, at_entry-onwards}

abbrev Jump : Type 0
Jump = FilePath → List String → Option FilePath

place_at :
    (q x : FilePath) (e : Entry) (l : Entries) → same q x ≡ true → find x (place q e l) ≡ some e
place_at q x e l h = ground (arith, find-place q x e l)

place_beside :
    (q x : FilePath) (e : Entry) (l : Entries) → same q x ≡ false → find x (place q e l) ≡ find x l
place_beside q x e l h = ground (arith, find-place q x e l)

module _ (q : FilePath) (b : List ℕ) (l : Entries) (no_link : is_link_at (find q l) ≡ false) where
  at_entry-cong :
      (jump jump' : Jump) (p : FilePath) (r : List String) (o : Option FilePath) (e : Option Entry)
      → ((t : FilePath) (u : List String) → jump t u ≡ jump' t u)
      → at_entry jump p r o e ≡ at_entry jump' p r o e
  at_entry-cong jump jump' p r o none h = refl
  at_entry-cong jump jump' p r o (some directory) h = refl
  at_entry-cong jump jump' p r o (some (file c)) h = refl
  at_entry-cong jump jump' p r o (some (link t)) h = h (target_from p t) r

  at_entry-place :
      (jump jump' : Jump) (p x : FilePath) (r : List String) (o : Option FilePath)
      → ((t : FilePath) (u : List String) → jump t u ≡ jump' t u)
      → at_entry jump p r o (find x (place q (file b) l)) ≡ at_entry jump' p r o (find x l)
  at_entry-place jump jump' p x r o h = elim (Bool-cases (same q x)) [
    | inl s ↦
        ap (at_entry jump p r o) (place_at q x (file b) l s)
        ∙ sym (
            at_entry-onwards jump' p r o (find x l)
              (subst (λ y. is_link_at (find y l) ≡ false) ((same_iff q x).0 s) no_link))
    | inr s ↦
        ap (at_entry jump p r o) (place_beside q x (file b) l s)
        ∙ at_entry-cong jump jump' p r o (find x l) h
  ]

  walk-place :
      (jump jump' : Jump) (p : FilePath) (r : List String)
      → ((t : FilePath) (u : List String) → jump t u ≡ jump' t u)
      → walk jump (place q (file b) l) p r ≡ walk jump' l p r
  unfolding walk
  walk-place jump jump' p [] h = refl
  walk-place jump jump' p (s ∷ r) h =
      ap (λ o. at_entry jump p r o (find (extend p s) (place q (file b) l)))
        (walk-place jump jump' (extend p s) r h)
      ∙ at_entry-place jump jump' p (extend p s) r (walk jump' l (extend p s) r) h

  chase-place :
      (n : ℕ) (p : FilePath) (r : List String) → chase n (place q (file b) l) p r ≡ chase n l p r
  unfolding chase
  chase-place zero p r =
      walk-place (λ t u. none) (λ t u. none) (top p) (p.segments ++ r) (λ t u. refl)
  chase-place (suc n) p r =
      walk-place (chase n (place q (file b) l)) (chase n l) (top p) (p.segments ++ r)
        (chase-place n)

  follow-place : (p : FilePath) → follow (place q (file b) l) p ≡ follow l p
  unfolding follow
  follow-place p = chase-place max_links p []

is_writable-no_link : (o : Option Entry) → is_writable o ≡ true → is_link_at o ≡ false
is_writable-no_link none h = refl
is_writable-no_link (some directory) h = refl
is_writable-no_link (some (file b)) h = refl
is_writable-no_link (some (link t)) h = absurd (ground arith)

written_inv :
    (b : List ℕ) (q : FilePath) (d : Disk) {t : Disk}
    → written b q d ≡ (fine tt, t)
    → (is_writable (find q d.entries) ≡ true) × (t.entries ≡ place q (file b) d.entries)
written_inv b q d h = (ground arith, ground arith)

-- Where a write went.
write_file_inv :
    (p : FilePath) (b : List ℕ) (d : Disk) {t : Disk}
    → write_file p b d ≡ (fine tt, t)
    → (q : FilePath) × (follow d.entries p ≡ some q)
      × (is_writable (find q d.entries) ≡ true)
      × (t.entries ≡ place q (file b) d.entries)
unfolding write_file call
write_file_inv p b d {t = t} h = elim (Option-cases (follow d.entries p)) [
  | inl n ↦ absurd (ground arith)
  | inr (q, n) ↦
      let w = written_inv b q (record d { calls = suc d.calls }) {t = t} (ground arith) in
      (q, n, w.0, w.1)
]

pub write_file-read_file :
    (p : FilePath) (b : List ℕ) (d : Disk) {t : Disk}
    → write_file p b d ≡ (fine tt, t)
    → t.fails t.calls ≡ false
    → (read_file p t).0 ≡ fine b
unfolding read_file call
write_file-read_file p b d {t = t} h up =
    let (q, n, w, e) = write_file_inv p b d {t = t} h in
    let leads : follow t.entries p ≡ some q =
      ap (λ l. follow l p) e
      ∙ follow-place q b d.entries (is_writable-no_link (find q d.entries) w) p
      ∙ n in
    rw (up, leads)
      (ap contents (ap (find q) e ∙ place_at q q (file b) d.entries ((same_iff q q).1 refl)))
