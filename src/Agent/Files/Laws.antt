-- ===== src/Agent/Files/Laws.antt =====
-- A request reaches what lies in its volume's directory, and nothing else.
use nimbuscore.Prelude.{
  subst, sym, ℕ, suc, String, true, false, List, [], ◌∷◌, ◌++◌, some, ◌≡◌, ap, arith, Bool-cases,
  Option-cases, inl, inr, ◌∙◌, All,
}
use nimbuscore.Paths.{FilePath, parent, join, join_all, is_within}
use nimbuscore.Paths.Laws.{IsPlain, is_within-IsPlain, join-IsSettled}
use nimbuscore.Disk.{
  Disk, Entry, file, call, top, ensure_each, follow, same, find, stat, remove, mkdir_all,
  write_file,
}
use nimbuscore.Disk.Links.{
  HasNoLinks, follow-HasNoLinks, follow_parent-HasNoLinks, ensure_each-HasNoLinks,
}
use nimbuscore.Disk.Laws.{find-place, find-unlinked, ensure_each-find, same_iff}
use nimbuscore.Agent.Files.{
  resolve_volume_path, write_files, delete_files, stored, stored_limited, limited,
  max_file_write_bytes,
}

-- A path that is accepted is the volume's directory with plain names behind it: none of "", "." and
-- "..".
pub resolve_volume_path-IsPlain :
    (volumes_dir namespace name rel_path : String) {full : FilePath}
    → resolve_volume_path volumes_dir namespace name rel_path ≡ some full
    → let vol_dir = join_all (volumes_dir ∷ namespace ∷ name ∷ []) in
      (full ≡ join vol_dir rel_path)
      × (r : List String) × (full.segments ≡ vol_dir.segments ++ r)
      × All IsPlain r
unfolding resolve_volume_path
resolve_volume_path-IsPlain volumes_dir namespace name rel_path {full = full} h =
    let vol_dir = join_all (volumes_dir ∷ namespace ∷ name ∷ []) in
    elim (Bool-cases (is_within vol_dir (join vol_dir rel_path))) [
      | inl e ↦
          let (r, at, plain) =
            is_within-IsPlain vol_dir (join vol_dir rel_path) (join-IsSettled vol_dir rel_path) e in
          let is_full : full ≡ join vol_dir rel_path = ground arith in
          (is_full, r, ap (λ (p : FilePath). p.segments) is_full ∙ at, plain)
      | inr e ↦ ground arith
    ]

accepted-within :
    (volumes_dir namespace name path : String) {full : FilePath}
    → resolve_volume_path volumes_dir namespace name path ≡ some full
    → is_within (join_all (volumes_dir ∷ namespace ∷ name ∷ [])) full ≡ true
unfolding resolve_volume_path
accepted-within volumes_dir namespace name path h = ground arith

mkdir_all-find :
    (p q : FilePath) (e : Entry) (d : Disk)
    → find q d.entries ≡ some e
    → find q (mkdir_all p d).1.entries ≡ some e
unfolding mkdir_all call
mkdir_all-find p q e d h = elim (Option-cases (ensure_each (top p) p.segments d.entries)) [
  | inl n ↦ ground arith
  | inr (m, n) ↦ ground (arith, ensure_each-find (top p) p.segments d.entries {m = m} q e n h)
]

mkdir_all-HasNoLinks :
    (p : FilePath) (d : Disk) → HasNoLinks d.entries → HasNoLinks (mkdir_all p d).1.entries
unfolding mkdir_all call
mkdir_all-HasNoLinks p d h = elim (Bool-cases (d.fails d.calls)) [
  | inl down ↦ rw down h
  | inr up ↦ elim (Option-cases (ensure_each (top p) p.segments d.entries)) [
    | inl n ↦ rw (up, n) h
    | inr (m, n) ↦ rw (up, n) (ensure_each-HasNoLinks (top p) p.segments d.entries n h)
  ]
]

write_file-find :
    (p q : FilePath) (b : List ℕ) (d : Disk)
    → HasNoLinks d.entries
    → same p q ≡ false
    → find q (write_file p b d).1.entries ≡ find q d.entries
unfolding write_file call
write_file-find p q b d h n =
    rw (follow-HasNoLinks d.entries p h) (ground (arith, find-place p q (file b) d.entries))

remove-find :
    (p q : FilePath) (d : Disk)
    → HasNoLinks d.entries
    → same p q ≡ false
    → find q (remove p d).1.entries ≡ find q d.entries
unfolding remove call
remove-find p q d h n =
    rw (follow_parent-HasNoLinks d.entries p h) (ground (arith, find-unlinked p q d.entries))

apart :
    (base p q : FilePath) → is_within base p ≡ true → is_within base q ≡ false → same p q ≡ false
apart base p q h k = ground (arith, same_iff p q)

abbrev Same : FilePath → Entry → Disk → Type 0
Same q e d = find q d.entries ≡ some e

stat-entries : (p : FilePath) (d : Disk) → (stat p d).1.entries ≡ d.entries
unfolding stat call
stat-entries p d = elim (Option-cases (follow d.entries p)) [
  | inl n ↦ rw n (ground arith)
  | inr (q, n) ↦ rw n (ground arith)
]

module _ (volumes_dir namespace name path : String) (q : FilePath) (e : Entry) (d : Disk)
    (at : find q d.entries ≡ some e) (no_links : HasNoLinks d.entries)
    (outside : is_within (join_all (volumes_dir ∷ namespace ∷ name ∷ [])) q ≡ false) where
  stored_limited-find :
      (full : FilePath) (content : List ℕ)
      → resolve_volume_path volumes_dir namespace name path ≡ some full
      → find q (stored_limited full content d).1.entries ≡ some e
  unfolding stored
  stored_limited-find full content n = ground (
    arith,
    mkdir_all-find (parent full) q e d at,
    write_file-find full q content (mkdir_all (parent full) d).1
        (mkdir_all-HasNoLinks (parent full) d no_links)
        (apart (join_all (volumes_dir ∷ namespace ∷ name ∷ [])) full q
          (accepted-within volumes_dir namespace name path n) outside),
  )

  -- On a disk without symbolic links, a request to write leaves every file and directory outside the
  -- volume's directory as it is, whatever path it names, and also when it fails on the way.
  pub write_files-confined :
      (method : String) (body : List ℕ)
      → find q (write_files volumes_dir method namespace name path body d).1.entries ≡ some e
  unfolding write_files
  write_files-confined method body =
      elim (Option-cases (resolve_volume_path volumes_dir namespace name path)) [
        | inl n ↦ ground arith
        | inr (full, n) ↦
            ground (arith, stored_limited-find full (limited (suc max_file_write_bytes) body) n)
      ]

  -- So does a request to delete.
  pub delete_files-confined :
      (method : String)
      → find q (delete_files volumes_dir method namespace name path d).1.entries ≡ some e
  unfolding delete_files
  delete_files-confined method =
      elim (Option-cases (resolve_volume_path volumes_dir namespace name path)) [
        | inl n ↦ ground arith
        | inr (full, n) ↦ ground (
          arith,
          stat-entries full d,
          remove-find full q (stat full d).1 (subst HasNoLinks (sym (stat-entries full d)) no_links)
              (apart (join_all (volumes_dir ∷ namespace ∷ name ∷ [])) full q
                (accepted-within volumes_dir namespace name path n) outside),
        )
      ]
