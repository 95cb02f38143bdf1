-- ===== src/Agent/Build.antt =====
-- internal/agent/build.go: the Dockerfile of a repository that has none. Decoding package.json and
-- encoding a text as JSON are encoding/json's: `unmarshal` gives what is decoded, however far that got.
use Prim.Native.String.{◌++◌}
use nimbuscore.Prelude.{ℕ, String, List, Assoc, lookup_or, ◌==◌, if◌then◌else◌}
use nimbuscore.Paths.{FilePath, join}
use nimbuscore.Disk.{Entry, Outcome, fine, fault, Io, give, throw, other, stat, read_file}

pub record Package : Type 0 where
  pub main : String
  pub scripts : Assoc String

-- staticDockerfile
abbrev pub static_dockerfile : String
static_dockerfile = "FROM nginx:alpine\nCOPY . /usr/share/nginx/html\n"

-- nodeDockerfileTemplate and nodeDockerfileWithBuildTemplate, with the command put in
abbrev pub node_dockerfile_template : String → String
node_dockerfile_template cmd =
    "FROM node:21-alpine\nWORKDIR /app\nCOPY . .\nRUN npm install --omit=dev\n" ++ cmd ++ "\n"

abbrev pub node_dockerfile_with_build_template : String → String
node_dockerfile_with_build_template cmd =
    "FROM node:21-alpine\nWORKDIR /app\nCOPY . .\nRUN npm install\nRUN npm run build\nRUN npm prune --omit=dev\n"
    ++ cmd ++ "\n"

module _ (unmarshal : List ℕ → Package) (marshal : String → String) where
  abbrev pub command_of : Package → String
  command_of pkg =
      if lookup_or "" "start" pkg.scripts == ""
      then "CMD [\"node\", " ++ marshal (if pkg.main == "" then "index.js" else pkg.main) ++ "]"
      else "CMD [\"npm\", \"start\"]"

  -- nodeDockerfile
  unfoldable pub node_dockerfile : List ℕ → String
  node_dockerfile pkg_json =
      let pkg = unmarshal pkg_json in
      if lookup_or "" "build" pkg.scripts == ""
      then node_dockerfile_template (command_of pkg)
      else node_dockerfile_with_build_template (command_of pkg)

  abbrev pub static_site : Outcome Entry → Io String
  static_site (fine e) = give static_dockerfile
  static_site (fault x) = throw other

  abbrev pub stack_of : FilePath → Outcome (List ℕ) → Io String
  stack_of context_dir (fine pkg_json) d = (fine (node_dockerfile pkg_json), d)
  stack_of context_dir (fault x) d =
      let (r, t) = stat (join context_dir "index.html") d in static_site r t

  -- detectDockerfile
  unfoldable pub detect_dockerfile : FilePath → Io String
  unfolding node_dockerfile
  detect_dockerfile context_dir d =
      let (r, t) = read_file (join context_dir "package.json") d in stack_of context_dir r t
