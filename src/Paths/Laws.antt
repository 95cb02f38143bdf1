-- ===== src/Paths/Laws.antt =====
-- What the test on the relative path establishes.
use mathlib.Core.List.{append_assoc}
use nimbuscore.Prelude.{
  ◌∙◌, String, Bool, true, false, ◌||◌, List, [], ◌∷◌, ◌++◌, none, some, ◌≡◌, ◌≢◌, ◌⊎◌, inl, inr,
  refl, ap, sym, subst, All, arith, ◌==◌, eq_iff, Bool-cases, Option-cases, if◌then◌else◌,
}
use nimbuscore.Paths.{
  FilePath, climb, enter, walk, turn, clean, split, file_path, join, relate, rel, leaves, ups,
  is_within,
}

-- A segment that names something below: none of "", "." and "..".
abbrev pub IsPlain : String → Type 0
IsPlain s = (s ≢ "") × (s ≢ ".") × (s ≢ "..")

-- Some steps up, and after them plain segments only.
abbrev pub IsSettled : List String → Type 0
IsSettled [] = Unit
IsSettled (s ∷ r) = ((s ≡ "..") × IsSettled r) ⊎ (IsPlain s × All IsPlain r)

-- The same of segments that are written last first.
abbrev IsTrail : List String → Type 0
IsTrail [] = Unit
IsTrail (s ∷ out) = ((s ≡ "..") × All (λ t. t ≡ "..") out) ⊎ (IsPlain s × IsTrail out)

All-up-IsTrail : (out : List String) → All (λ t. t ≡ "..") out → IsTrail out
All-up-IsTrail [] h = tt
All-up-IsTrail (s ∷ out) h = inl h

climb-IsTrail : (rooted : Bool) (out : List String) → IsTrail out → IsTrail (climb rooted out)
unfolding climb
climb-IsTrail true [] h = tt
climb-IsTrail false [] h = inl (refl, tt)
climb-IsTrail rooted (s ∷ out) (inl h) = rw ((eq_iff s "..").1 h.0) (inl (refl, h))
climb-IsTrail rooted (s ∷ out) (inr h) = elim (Bool-cases (s == "..")) [
  | inl e ↦ absurd (h.0.2 ((eq_iff s "..").0 e))
  | inr e ↦ rw e h.1
]

ne_of : (s t : String) → (s == t) ≡ false → s ≢ t
ne_of s t h e = ground (arith, (eq_iff s t).1 e)

enter-IsTrail :
    (rooted : Bool) (out : List String) (s : String) → IsTrail out → IsTrail (enter rooted out s)
unfolding enter
enter-IsTrail rooted out s h = elim (Bool-cases (s == "" || s == ".")) [
  | inl e ↦ rw e h
  | inr e ↦ elim (Bool-cases (s == "..")) [
    | inl u ↦ rw (e, u) (climb-IsTrail rooted out h)
    | inr u ↦
        rw (e, u) (inr ((ne_of s "" (ground arith), ne_of s "." (ground arith), ne_of s ".." u), h))
  ]
]

walk-IsTrail : (rooted : Bool) (out r : List String) → IsTrail out → IsTrail (walk rooted out r)
unfolding walk
walk-IsTrail rooted out [] h = h
walk-IsTrail rooted out (s ∷ r) h =
    walk-IsTrail rooted (enter rooted out s) r (enter-IsTrail rooted out s h)

turn_up :
    (out acc : List String) → All (λ t. t ≡ "..") out → IsSettled acc → IsSettled (turn out acc)
unfolding turn
turn_up [] acc h k = k
turn_up (s ∷ out) acc h k = turn_up out (s ∷ acc) h.1 (inl (h.0, k))

settle : (r : List String) → All IsPlain r → IsSettled r
settle [] h = tt
settle (s ∷ r) h = inr h

turn-IsSettled : (out acc : List String) → IsTrail out → All IsPlain acc → IsSettled (turn out acc)
unfolding turn
turn-IsSettled [] acc h k = settle acc k
turn-IsSettled (s ∷ out) acc (inl h) k = turn_up out (s ∷ acc) h.1 (inl (h.0, settle acc k))
turn-IsSettled (s ∷ out) acc (inr h) k = turn-IsSettled out (s ∷ acc) h.1 (h.0, k)

pub clean-IsSettled : (rooted : Bool) (r : List String) → IsSettled (clean rooted r).segments
unfolding clean
clean-IsSettled rooted r = turn-IsSettled (walk rooted [] r) [] (walk-IsTrail rooted [] r tt) tt

pub file_path-IsSettled : (s : String) → IsSettled (file_path s).segments
unfolding file_path
file_path-IsSettled s = clean-IsSettled _ (split s)

pub join-IsSettled : (p : FilePath) (s : String) → IsSettled (join p s).segments
unfolding join
join-IsSettled p s = clean-IsSettled p.rooted (p.segments ++ split s)

drop-IsPlain : (b r : List String) → All IsPlain (b ++ r) → All IsPlain r
drop-IsPlain [] r h = h
drop-IsPlain (s ∷ b) r h = drop-IsPlain b r h.1

-- What follows a part of a settled path is settled.
IsSettled-tail : (b r : List String) → IsSettled (b ++ r) → IsSettled r
IsSettled-tail [] r h = h
IsSettled-tail (s ∷ b) r (inl h) = IsSettled-tail b r h.1
IsSettled-tail (s ∷ b) r (inr h) = settle r (drop-IsPlain b r h.1)

stays-IsPlain : (r : List String) → leaves r ≡ false → IsSettled r → All IsPlain r
stays-IsPlain [] h k = tt
stays-IsPlain (s ∷ r) h (inl k) = ground (arith, (eq_iff s "..").1 k.0)
stays-IsPlain (s ∷ r) h (inr k) = k

goes_up :
    (c : Bool) (l r : List String)
    → (if c then none else some (".." ∷ l)) ≡ some r
    → leaves r ≢ false
goes_up true l r h k = cc
goes_up false l [] h k = cc
goes_up false l (s ∷ r) h k = ground (arith, eq_iff s "..")

-- A relative path that does not leave is the rest of the target behind the base.
relate_inv :
    (base target r : List String)
    → relate base target ≡ some r
    → leaves r ≡ false
    → target ≡ base ++ r
unfolding relate
relate_inv [] target r h k = ground arith
relate_inv (b ∷ base) [] r h k = absurd (goes_up (b == "..") (ups base) r h k)
relate_inv (b ∷ base) (t ∷ target) r h k = elim (Bool-cases (b == t)) [
  | inl e ↦
      rw (sym ((eq_iff b t).0 e)) (ap (λ l. b ∷ l) (relate_inv base target r (ground arith) k))
  | inr e ↦ absurd (goes_up (b == "..") (ups base ++ t ∷ target) r (rw e at h) k)
]

relate-append : (base r : List String) → relate base (base ++ r) ≡ some r
unfolding relate
relate-append [] r = refl
relate-append (b ∷ base) r = ground (arith, relate-append base r, (eq_iff b b).1 refl)

-- The test accepts the paths that are the base with something behind it that does not begin by a
-- step up.
pub is_within_inv :
    (base target : FilePath)
    → is_within base target ≡ true
    → (target.rooted ≡ base.rooted)
      × (r : List String) × (target.segments ≡ base.segments ++ r)
      × (leaves r ≡ false)
unfolding is_within rel
is_within_inv base target h = elim (Option-cases (relate base.segments target.segments)) [
  | inl e ↦ ground arith
  | inr (r, e) ↦
      (ground arith, r, relate_inv base.segments target.segments r e (ground arith), ground arith)
]

pub is_within-append :
    (base target : FilePath) (r : List String)
    → target.rooted ≡ base.rooted
    → target.segments ≡ base.segments ++ r
    → leaves r ≡ false
    → is_within base target ≡ true
unfolding is_within rel
is_within-append base target r e s h =
    ground (arith, relate-append base.segments r, ap (relate base.segments) s)

-- Of a settled path, all that stands behind the base is plain.
pub is_within-IsPlain :
    (base target : FilePath)
    → IsSettled target.segments
    → is_within base target ≡ true
    → (r : List String) × (target.segments ≡ base.segments ++ r) × All IsPlain r
is_within-IsPlain base target settled h =
    let (e, r, reads, stays) = is_within_inv base target h in
    (
      r,
      reads,
      stays-IsPlain r stays (IsSettled-tail base.segments r (subst IsSettled reads settled)),
    )

leaves-append : (r l : List String) → leaves r ≡ false → leaves l ≡ false → leaves (r ++ l) ≡ false
leaves-append [] l h k = k
leaves-append (s ∷ r) l h k = h

pub is_within_trans :
    (p q r : FilePath) → is_within p q ≡ true → is_within q r ≡ true → is_within p r ≡ true
is_within_trans p q r h k =
    let (e, l, at, stays) = is_within_inv p q h in
    let (f, m, there, more) = is_within_inv q r k in
    is_within-append p r (l ++ m) (f ∙ e)
      (there ∙ ap (λ (t : List String). t ++ m) at ∙ append_assoc p.segments l m)
      (leaves-append l m stays more)
