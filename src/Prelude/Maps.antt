-- ===== src/Prelude/Maps.antt =====
-- Go's maps with string keys, as association lists. An iteration goes in the order of the list.
use Prim.Native.String.{String}
use mathlib.Core.Path.{◌≡◌, refl, subst}
use mathlib.Core.Logic.{inl, inr}
use mathlib.Core.Bool.{false}
use mathlib.Core.Option.{Option, none, some}
use mathlib.Core.List.{List, [], ◌∷◌}
use native.Mathlib.Omega.{arith}
use text.Mathlib.Text.{◌==◌}
use text.Mathlib.TextEquality.{eq_iff}
use nimbuscore.Prelude.Tests.{if◌then◌else◌, Bool-cases}

abbrev pub Assoc {ℓ} : Type ℓ → Type ℓ
Assoc V = List (String × V)

module _ {ℓ} {V : Type ℓ} where
  -- v, ok := m[k]
  unfoldable pub lookup : String → Assoc V → Option V
  lookup k [] = none
  lookup k ((j, v) ∷ m) = if j == k then some v else lookup k m

  -- m[k], with the zero value for a missing key
  unfoldable pub lookup_or : V → String → Assoc V → V
  lookup_or z k [] = z
  lookup_or z k ((j, v) ∷ m) = if j == k then v else lookup_or z k m

  -- m[k] = v
  unfoldable pub insert : String → V → Assoc V → Assoc V
  insert k v [] = (k, v) ∷ []
  insert k v ((j, w) ∷ m) = if j == k then (k, v) ∷ m else (j, w) ∷ insert k v m

  -- delete(m, k)
  unfoldable pub remove : String → Assoc V → Assoc V
  remove k [] = []
  remove k ((j, v) ∷ m) = let rest = remove k m in if j == k then rest else (j, v) ∷ rest

  pub lookup-insert :
      (added wanted : String) (value : V) (table : Assoc V)
      → lookup wanted (insert added value table)
        ≡ (if added == wanted then some value else lookup wanted table)
  unfolding insert lookup
  lookup-insert added wanted value [] = refl
  lookup-insert added wanted value ((at, old) ∷ rest) = ground (
    lookup-insert added wanted value rest,
    eq_iff at wanted,
    eq_iff at added,
    eq_iff added wanted,
    arith,
  )

  pub lookup-remove :
      (gone wanted : String) (table : Assoc V)
      → lookup wanted (remove gone table) ≡ (if gone == wanted then none else lookup wanted table)
  unfolding remove lookup
  lookup-remove gone wanted [] = ground arith
  lookup-remove gone wanted ((at, old) ∷ rest) =
      ground (
        lookup-remove gone wanted rest,
        eq_iff at wanted,
        eq_iff at gone,
        eq_iff gone wanted,
        arith,
      )

  -- No key stands twice, as in every Go map.
  abbrev pub Lacks : String → Assoc V → Type 0
  Lacks k [] = Unit
  Lacks k ((j, v) ∷ m) = ((j == k) ≡ false) × Lacks k m

  abbrev pub HasKeysOnce : Assoc V → Type 0
  HasKeysOnce [] = Unit
  HasKeysOnce ((k, v) ∷ m) = Lacks k m × HasKeysOnce m

  Lacks-insert :
      (k j : String) (v : V) (m : Assoc V) → (k == j) ≡ false → Lacks j m → Lacks j (insert k v m)
  unfolding insert
  Lacks-insert k j v [] h l = (h, tt)
  Lacks-insert k j v ((i, w) ∷ m) h l = ground (arith, Lacks-insert k j v m h l.1)

  pub insert-HasKeysOnce :
      (k : String) (v : V) (m : Assoc V) → HasKeysOnce m → HasKeysOnce (insert k v m)
  unfolding insert
  insert-HasKeysOnce k v [] h = (tt, tt)
  insert-HasKeysOnce k v ((j, w) ∷ m) h = elim (Bool-cases (j == k)) [
    | inl e ↦ rw e (subst (λ i. Lacks i m) ((eq_iff j k).0 e) h.0, h.1)
    | inr e ↦ rw e (
      Lacks-insert k j v m (ground (arith, eq_iff j k, eq_iff k j)) h.0,
      insert-HasKeysOnce k v m h.1,
    )
  ]

  Lacks-remove : (k j : String) (m : Assoc V) → Lacks j m → Lacks j (remove k m)
  unfolding remove
  Lacks-remove k j [] l = tt
  Lacks-remove k j ((i, w) ∷ m) l = ground (arith, Lacks-remove k j m l.1)

  pub remove-HasKeysOnce : (k : String) (m : Assoc V) → HasKeysOnce m → HasKeysOnce (remove k m)
  unfolding remove
  remove-HasKeysOnce k [] h = tt
  remove-HasKeysOnce k ((j, w) ∷ m) h =
      ground (arith, Lacks-remove k j m h.0, remove-HasKeysOnce k m h.1)
