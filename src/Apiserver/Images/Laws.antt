-- ===== src/Apiserver/Images/Laws.antt =====
-- The image registry holds signed images only.
use nimbuscore.Prelude.{
  ℕ, ℤ, String, Bool, true, List, [], ◌∷◌, Assoc, insert, remove, All, ◌≡◌, arith,
}
use nimbuscore.Api.{ImageRecord}
use nimbuscore.Cluster.{Cluster, key, put, delete}
use nimbuscore.Apiserver.Images.{push_image, delete_image, image_record}

module _ (verifies : String → List ℕ → Bool) where
  abbrev pub IsSigned : String × ImageRecord → Type 0
  IsSigned (k, rec) = verifies rec.reference rec.signature ≡ true

  insert-IsSigned :
      (k : String) (rec : ImageRecord) (m : Assoc ImageRecord)
      → verifies rec.reference rec.signature ≡ true
      → All IsSigned m
      → All IsSigned (insert k rec m)
  unfolding insert
  insert-IsSigned k rec [] v h = (v, tt)
  insert-IsSigned k rec ((j, old) ∷ m) v h = ground (arith, insert-IsSigned k rec m v h.1)

  remove-IsSigned :
      (k : String) (m : Assoc ImageRecord) → All IsSigned m → All IsSigned (remove k m)
  unfolding remove
  remove-IsSigned k [] h = tt
  remove-IsSigned k ((j, old) ∷ m) h = ground (arith, remove-IsSigned k m h.1)

  -- If every stored image has a signature that verifies, so it is after any push, accepted or not,
  -- and after any deletion, whether or not the store fails.
  pub push_image-IsSigned :
      (now : ℤ) (reference gone : String) (signature : List ℕ) (s : Cluster)
      → All IsSigned s.images
      → All IsSigned (push_image verifies now reference signature s).1.images
        × All IsSigned (delete_image gone s).1.images
  unfolding push_image delete_image put delete
  push_image-IsSigned now reference gone signature s h = ground (
    arith,
    insert-IsSigned (key "images" "" reference) (image_record now reference signature) s.images,
    remove-IsSigned (key "images" "" gone) s.images,
  )
