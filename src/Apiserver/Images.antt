-- ===== src/Apiserver/Images.antt =====
-- internal/apiserver/imageregistry_service.go. Whether a signature fits a reference is
-- `imagesign.Verify` under the service's key, a parameter.
pub mod Laws
use nimbuscore.Prelude.{ℕ, ℤ, String, Bool, not, List, ◌==◌, if◌then◌else◌}
use nimbuscore.Api.{ImageRecord}
use nimbuscore.Cluster.{M, pure, raise, ◌>>◌, images, get, put, delete, list}
use nimbuscore.Apiserver.Codes.{
  answering, invalid_argument, internal, not_there, permission_refused,
}

abbrev pub image_record : ℤ → String → List ℕ → ImageRecord
image_record now reference signature = record {
  reference = reference;
  signature = signature;
  pushed_at_unix = now;
}

-- PushImage at the time `now`, in seconds.
unfoldable pub push_image : (String → List ℕ → Bool) → ℤ → String → List ℕ → M ImageRecord
push_image verifies now reference signature =
    if reference == ""
    then raise invalid_argument
    else if not (verifies reference signature)
    then raise permission_refused
    else (answering internal (put images "" reference (image_record now reference signature))
        >> pure (image_record now reference signature))

-- GetImage
unfoldable pub get_image : String → M ImageRecord
get_image reference = answering not_there (get images "" reference)

-- ListImages
unfoldable pub list_images : M (List ImageRecord)
list_images = answering internal (list images "")

-- DeleteImage
unfoldable pub delete_image : String → M (Unit {0})
delete_image reference = answering internal (delete images "" reference)
