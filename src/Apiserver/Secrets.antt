-- ===== src/Apiserver/Secrets.antt =====
-- internal/apiserver/secret_service.go
use nimbuscore.Prelude.{String, List, ◌==◌, if◌then◌else◌}
use nimbuscore.Api.{Secret}
use nimbuscore.Cluster.{M, pure, raise, ◌>>◌, secrets, get, put, delete, list}
use nimbuscore.Apiserver.Codes.{answering, invalid_argument, internal, not_there}

-- CreateSecret
unfoldable pub create_secret : Secret → M Secret
create_secret x =
    if x.metadata.name == ""
    then raise invalid_argument
    else (answering internal (put secrets x.metadata.namespace x.metadata.name x) >> pure x)

-- GetSecret
unfoldable pub get_secret : String → String → M Secret
get_secret namespace name = answering not_there (get secrets namespace name)

-- ListSecrets
unfoldable pub list_secrets : String → M (List Secret)
list_secrets namespace = answering internal (list secrets namespace)

-- DeleteSecret
unfoldable pub delete_secret : String → String → M (Unit {0})
delete_secret namespace name = answering internal (delete secrets namespace name)
