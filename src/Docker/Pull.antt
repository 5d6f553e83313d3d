-- ===== src/Docker/Pull.antt =====
-- `NewDockerInstaller`, `PullImageCb`, `GetImageID` and `ExtractConfig`.
use px_installer.Base.{
  Option, none, some, [], ◌∷◌, ◌++◌, if◌then◌else◌, length, take, Bytes, lit, leb, contains, str_eq,
}
use px_installer.Base.Result.{Result, ok, err}
use px_installer.World.{
  Error, Env, Stream, ContainerJson, new_client, pull_image, inspect_image, inspect_container,
}
use px_installer.World.Monad.{M, pure, ◌>>=◌, ask}
use px_installer.Inspect.{SimpleContainerConfig, format_mounts}

-- `DockerInstaller`: the credentials that `auth` encodes, if there is a user.
pub record DockerInstaller : Type 0 where
  pub auth : Option (Bytes × Bytes)

abbrev pub docker_download_msg : Bytes
docker_download_msg = lit "\"Pulling fs layer\""

-- `os.Getenv`
abbrev pub getenv : Env → Bytes → Bytes
getenv env name = elim (env.env_var name) [ none ↦ [] | some v ↦ v ]

unfoldable pub api_version : Env → Bytes
api_version env =
    let v = getenv env (lit "DOCKER_API_VERSION") in if str_eq v [] then lit "1.23" else v

abbrev pub with_client : Bytes → Bytes → Error → Result Bytes DockerInstaller
with_client user pass (some message) = err message
with_client user pass none =
    ok (record { auth = if str_eq user [] then none else some (user, pass) })

-- How `io.ReadFull` into 512 bytes ends: with the buffer full, with some bytes at the end of the
-- stream, or with an error (which the end of an empty stream is too).
pub data FirstRead : Type 0 where
  full some_bytes : FirstRead
  read_error : Bytes → FirstRead

abbrev pub short_read : Bytes → Error → FirstRead
short_read content (some message) = read_error message
short_read [] none = read_error (lit "EOF")
short_read (c ∷ content) none = some_bytes

unfoldable pub first_read : Stream → FirstRead
first_read s = if leb 512 (length s.content) then full else short_read s.content s.fails

abbrev pub container_config :
    Bytes → Result Bytes ContainerJson → Result Bytes SimpleContainerConfig
container_config id (err message) =
    err (lit "Error inspecting container '" ++ (id ++ (lit "': " ++ message)))
container_config id (ok c) = ok (record {
  args = c.args;
  mounts = format_mounts c;
  env_list = c.env_list;
  labels = c.container_labels;
})

module _ (env : Env) where
  unfoldable pub new_docker_installer : Bytes → Bytes → M (Result Bytes DockerInstaller)
  new_docker_installer user pass = do
    e ← ask (new_client (api_version env)) (λ events. env.connected events (api_version env))
    pure (with_client user pass e)

  -- The rest of the pull, once the first 512 bytes are there.
  abbrev pub copy_rest : Stream → Error → M Error
  copy_rest s (some message) = pure (some message)
  copy_rest s none = pure s.fails

  unfoldable pub pull_stream : M Error → Stream → M Error
  pull_stream cb s = elim (first_read s) [
    | full ↦ (do
      e ← (if contains (take 512 s.content) docker_download_msg then cb else pure none)
      copy_rest s e)
    | some_bytes ↦ pure none
    | read_error message ↦ pure (some message)
  ]

  abbrev pub pulled_stream : M Error → Result Bytes Stream → M Error
  pulled_stream cb (err message) = pure (some message)
  pulled_stream cb (ok s) = pull_stream cb s

  unfoldable pub pull_image_cb : Bytes → M Error → M Error
  unfolding pull_stream first_read
  pull_image_cb name cb = do
    out ← ask (pull_image name) (λ events. env.pulled events name)
    pulled_stream cb out

  unfoldable pub get_image_id : Bytes → M (Result Bytes Bytes)
  get_image_id name = ask (inspect_image name) (λ events. env.image_id events name)

  unfoldable pub extract_config : Bytes → M (Result Bytes SimpleContainerConfig)
  extract_config id = do
    c ← ask (inspect_container id) (λ events. env.inspected events id)
    pure (container_config id c)
