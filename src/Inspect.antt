-- ===== src/Inspect.antt =====
-- px-oci-mon/utils/inspect.go: what the monitor reads of its own container.
pub mod Mounts
use px_installer.Base.{
  ℕ, Bool, true, false, not, Option, none, some, List, [], ◌∷◌, ◌++◌, if◌then◌else◌, length, drop,
  Bytes, lit, str_eq, has_prefix, trim_space, ◌||◌,
}
use px_installer.Base.Result.{Result, ok, err}
use px_installer.World.{Error, ContainerJson, MountPoint, Env, World, open_file, read_file}
use px_installer.World.Monad.{M, pure, ◌>>=◌, ◌>>◌, ask}

-- `SimpleContainerConfig`
pub record SimpleContainerConfig : Type 0 where
  pub args : List Bytes
  pub mounts : List Bytes
  pub env_list : List Bytes
  pub labels : List (Bytes × Bytes)

-- The value of the last entry `look4...`, or `found`.
unfoldable pub last_value : Bytes → Bytes → List Bytes → Bytes
last_value look4 found [] = found
last_value look4 found (e ∷ entries) =
    last_value look4 (if has_prefix e look4 then drop (length look4) e else found) entries

abbrev pub env_value : Bytes → Result Bytes (List Bytes) → Result Bytes Bytes
env_value env_var (err message) = err message
env_value env_var (ok entries) = ok (last_value (env_var ++ lit "=") [] entries)

-- The options of a mount: the propagation, unless it is private or blank, then `ro`.
unfoldable pub mount_options : MountPoint → Bytes
mount_options m =
    let prop = trim_space m.propagation in
    let plain =
      str_eq m.propagation (lit "private")
      || str_eq m.propagation (lit "rprivate")
      || str_eq prop [] in
    if plain
    then (if m.rw then [] else lit ":ro")
    else lit ":" ++ (prop ++ (if m.rw then [] else lit ",ro"))

unfoldable pub mount_text : MountPoint → Bytes
mount_text m = m.source ++ (lit ":" ++ (m.destination ++ mount_options m))

-- `lookupCache[destination]`, of which the last write counts; only its presence is used.
unfoldable pub has_destination : Bytes → List MountPoint → Bool
has_destination d [] = false
has_destination d (m ∷ mounts) = str_eq m.destination d || has_destination d mounts

unfoldable pub mount_texts : List MountPoint → List Bytes
mount_texts [] = []
mount_texts (m ∷ mounts) = mount_text m ∷ mount_texts mounts

-- One of the extra files, unless it is not known or a mount has its destination.
unfoldable pub extra : Bytes → Bytes → List MountPoint → List Bytes
extra conf_source destination mounts =
    if str_eq conf_source [] || has_destination destination mounts
    then []
    else (conf_source ++ (lit ":" ++ (destination ++ lit ":ro"))) ∷ []

unfoldable pub format_mounts : ContainerJson → List Bytes
format_mounts c =
    mount_texts c.mounts
    ++ (extra c.hosts_path (lit "/etc/hosts") c.mounts
        ++ extra c.resolv_conf_path (lit "/etc/resolv.conf") c.mounts)

abbrev pub parsed_env : Env → Bytes → Result Bytes Bytes → Result Bytes Bytes
parsed_env env env_var (err message) = err message
parsed_env env env_var (ok text) = env_value env_var (env.process_env text)

abbrev pub cgroup_file : Bytes
cgroup_file = lit "/proc/self/cgroup"

abbrev pub found_id : Option Bytes → Result Bytes Bytes
found_id none = err (lit "container not found")
found_id (some id) = ok id

abbrev pub own_id : Env → Result Bytes Bytes → Result Bytes Bytes
own_id env (err message) = err (lit "Unable to read " ++ (cgroup_file ++ (lit ": " ++ message)))
own_id env (ok content) = found_id (env.container_id content)

module _ (env : Env) where
  unfoldable pub extract_env_from_oci_config : Bytes → Bytes → M (Result Bytes Bytes)
  extract_env_from_oci_config fname env_var = do
    text ← ask (read_file fname) (λ events. env.contents events fname)
    pure (parsed_env env env_var text)

  abbrev pub after_open : Error → M (Result Bytes Bytes)
  after_open (some message) =
      pure (err (lit "Unable to open " ++ (cgroup_file ++ (lit ": " ++ message))))
  after_open none = do
    content ← ask (read_file cgroup_file) (λ events. env.contents events cgroup_file)
    pure (own_id env content)

  unfoldable pub get_my_container_id : M (Result Bytes Bytes)
  get_my_container_id = do
    e ← ask (open_file cgroup_file) (λ events. env.opened events cgroup_file)
    after_open e
