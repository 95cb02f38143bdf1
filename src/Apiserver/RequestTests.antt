-- ===== src/Apiserver/RequestTests.antt =====
-- The services for certificates, images and volumes on concrete requests.
use nimbuscore.Prelude.{
  ℕ, pos, String, Bool, true, false, not, List, [], ◌∷◌, Option, none, some, ◌≡◌, ◌≢◌, refl, arith,
  eq_iff, is_empty, any, All,
}
use nimbuscore.Fixtures.{one_pod}
use nimbuscore.Paths.{FilePath, file_path, is_within}
use nimbuscore.Disk.{Disk, directory, find}
use nimbuscore.Csi.{Driver, volume_dir}
use nimbuscore.Cluster.{ok}
use nimbuscore.Rbac.{allow}
use nimbuscore.Apiserver.Auth.{SpiffeId}
use nimbuscore.Apiserver.Auth.Access.{is_pair, node_permissions}
use nimbuscore.Apiserver.Methods.{default_rbac_bindings}
use nimbuscore.Apiserver.Identity.{SvidRequest, SvidResponse, role_node, request_svid}
use nimbuscore.Apiserver.Identity.Laws.{request_svid-node}
use nimbuscore.Apiserver.Images.{push_image, delete_image}
use nimbuscore.Apiserver.Images.Laws.{IsSigned, push_image-IsSigned}
use nimbuscore.Apiserver.Volumes.{volume_id, delete_volume}
use nimbuscore.Apiserver.Volumes.Laws.{delete_volume-base}

-- A request is its own key, and a certificate is the identity that it is for.
abbrev public_key : List ℕ → Option (List ℕ)
public_key csr = some csr

abbrev from_path : String → Option SpiffeId
from_path path = some (record { trust_domain = "nimbus"; path = path })

abbrev issue : List ℕ → SpiffeId → Option SpiffeId
issue key id = some id

abbrev request : SvidRequest
request = record { join_token = "token"; node_name = "n1"; csr = 5 ∷ []; role = role_node }

abbrev response : SvidResponse SpiffeId
response = record {
  certificate = record { trust_domain = "nimbus"; path = "/node/n1" };
  trust_bundle = 1 ∷ [];
  data_encryption_key = [];
}

answers : request_svid public_key from_path issue "token" (1 ∷ []) (9 ∷ []) request ≡ ok response
unfolding request_svid
answers = refl

keeps_path : (path : String) (id : SpiffeId) → from_path path ≡ some id → id.path ≡ path
keeps_path path id h = ground arith

request_svid-node_example :
    (key : List ℕ) × (id : SpiffeId) × (issue key id ≡ some response.certificate)
    × (response.data_encryption_key ≡ [])
    × ((resource verb : String)
        → allow default_rbac_bindings id.path resource verb
          ≡ any (is_pair resource verb) node_permissions)
request_svid-node_example =
    request_svid-node public_key from_path issue "token" (1 ∷ []) (9 ∷ []) request keeps_path refl
      answers

-- A signature is good if it is not empty.
abbrev verifies : String → List ℕ → Bool
verifies reference signature = not (is_empty signature)

push_image-IsSigned_example :
    All (IsSigned verifies) (push_image verifies (pos 10) "app:v1" (4 ∷ []) one_pod).1.images
    × All (IsSigned verifies) (delete_image "old" one_pod).1.images
push_image-IsSigned_example =
    push_image-IsSigned verifies (pos 10) "app:v1" "old" (4 ∷ []) one_pod tt

abbrev driver : Driver
driver = record { node_id = "n1"; base_dir = "/data" }

abbrev at_path : List String → FilePath
at_path s = record { rooted = true; segments = s }

abbrev alpha : FilePath
alpha = at_path ("data" ∷ "b" ∷ "alpha" ∷ [])

abbrev elsewhere : FilePath
elsewhere = at_path ("etc" ∷ [])

abbrev disk : Disk
disk = record {
  entries =
      (elsewhere, directory) ∷ (at_path ("data" ∷ "b" ∷ []), directory) ∷ (alpha, directory) ∷ [];
  calls = 0;
  fails = λ _. false;
}

abbrev shop : String
shop = "shop"

abbrev up_name : String
up_name = ".."

shop_named : shop ≢ ""
shop_named h = ground (arith, (eq_iff "shop" "").1 h)

up_named : up_name ≢ ""
up_named h = ground (arith, (eq_iff ".." "").1 h)

id_named : volume_id shop up_name ≢ ""
id_named h = ground (arith, (eq_iff "shop/.." "").1 h)

-- A request to delete the volume ".." of the namespace "shop" deletes a volume of the namespace "b".
delete_volume-base_example :
    find alpha (delete_volume driver "shop" ".." (one_pod, disk)).1.1.entries ≡ none
unfolding volume_dir file_path is_within
delete_volume-base_example =
    delete_volume-base driver shop up_name one_pod disk alpha shop_named up_named id_named refl refl
      refl
