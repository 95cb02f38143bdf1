-- ===== src/Apiserver/Namespaces.antt =====
-- internal/apiserver/namespace_service.go
use nimbuscore.Prelude.{String, List, ◌==◌, if◌then◌else◌}
use nimbuscore.Api.{Namespace}
use nimbuscore.Cluster.{
  M, Result, ok, err, pure, raise, attempt, ◌>>=◌, ◌>>◌, namespaces, get, put, delete, list,
}
use nimbuscore.Apiserver.Codes.{answering, invalid_argument, internal, not_there, already_exists}

abbrev pub unless_there : Namespace → Result Namespace → M Namespace
unless_there ns (ok old) = raise already_exists
unless_there ns (err e) = answering internal (put namespaces "" ns.metadata.name ns) >> pure ns

-- CreateNamespace. Any error of the lookup lets it write.
unfoldable pub create_namespace : Namespace → M Namespace
create_namespace ns =
    if ns.metadata.name == ""
    then raise invalid_argument
    else (attempt (get namespaces "" ns.metadata.name) >>= unless_there ns)

-- GetNamespace
unfoldable pub get_namespace : String → M Namespace
get_namespace name = answering not_there (get namespaces "" name)

-- ListNamespaces
unfoldable pub list_namespaces : M (List Namespace)
list_namespaces = answering internal (list namespaces "")

-- DeleteNamespace
unfoldable pub delete_namespace : String → M (Unit {0})
delete_namespace name = answering internal (delete namespaces "" name)
