-- ===== src/Monitor/Install.antt =====
-- `installPxFromOciImage` of px-oci-mon/main.go.
pub mod Decision
pub mod CommandLine
pub mod Cordon
use px_installer.Base.{
  ℕ, Bool, true, false, ◌||◌, Option, none, some, List, [], ◌∷◌, ◌++◌, if◌then◌else◌, Bytes, lit,
  ltb, length, str_eq, contains, has_prefix, has_suffix, to_lower,
}
use px_installer.Base.Result.{Result, ok, err}
use px_installer.World.{Error, stat, Env}
use px_installer.World.Monad.{M, pure, exit, modify, ◌>>=◌, ◌>>◌, ask}
use px_installer.Servlet.State.{set_state_installing, set_state_install_finished}
use px_installer.Service.{run_external, reload, enable}
use px_installer.Inspect.{SimpleContainerConfig, extract_env_from_oci_config}
use px_installer.Docker.Pull.{pull_image_cb, get_image_id}
use px_installer.Docker.RunOnce.{run_once, LogReport}
use px_installer.Monitor.Common.{oci_service, inst_k8s_dir, service_file, base_service_name}
use px_installer.Monitor.Finalize.{InstallStatus}
use px_installer.Monitor.Restart.{ask_restart_required}
use px_installer.Monitor.RootDir.{get_kubernetes_root_dir}

abbrev pub px_image_key : Bytes
px_image_key = lit "PX_IMAGE"

abbrev pub px_image_id_key : Bytes
px_image_id_key = lit "PX_IMAGE_ID"

abbrev pub px_config_file : Bytes
px_config_file = lit "/etc/pwx/config.json"

-- `ociPrivateMounts`
abbrev pub oci_private_mounts : List Bytes
oci_private_mounts =
    lit "/etc/pwx:/etc/pwx"
    ∷ lit "/opt/pwx:/opt/pwx"
    ∷ lit "/etc/systemd/system:/etc/systemd/system"
    ∷ lit "/proc/1/ns:/host_proc/1/ns"
    ∷ lit "/var/run/docker.sock:/var/run/docker.sock"
    ∷ []

unfoldable pub is_private : Bytes → List Bytes → Bool
is_private vol [] = false
is_private vol (m ∷ mounts) = str_eq vol m || is_private vol mounts

-- A mount that is not passed to px-runc.
unfoldable pub skips_mount : Bytes → Bool
unfolding is_private
skips_mount vol =
    is_private vol oci_private_mounts
    || ltb (length vol) 4
    || has_prefix vol (lit "/var/run/docker.sock:")

unfoldable pub mount_args : List Bytes → List Bytes
unfolding skips_mount
mount_args [] = []
mount_args (vol ∷ mounts) =
    let rest = mount_args mounts in if skips_mount vol then rest else lit "-v" ∷ vol ∷ rest

unfoldable pub env_args : List Bytes → List Bytes
env_args [] = []
env_args (e ∷ entries) = lit "-e" ∷ e ∷ env_args entries

-- `os.Args[1:]`, less an argument that ends in "install"; with no `os.Args[1]` the process panics.
unfoldable pub own_args : List Bytes → Option (List Bytes)
own_args [] = none
own_args (program ∷ []) = none
own_args (program ∷ a ∷ rest) =
    some (if has_suffix (to_lower a) (lit "install") then rest else a ∷ rest)

-- The start of the line: the program, and where to install.
unfoldable pub install_prefix : Bool → List Bytes
install_prefix true =
    (inst_k8s_dir ++ lit "/bin/px-runc")
    ∷ lit "install"
    ∷ lit "-oci"
    ∷ (inst_k8s_dir ++ lit "/oci")
    ∷ lit "-sysd"
    ∷ lit "/dev/null"
    ∷ []
install_prefix false = lit "/opt/pwx/bin/px-runc" ∷ lit "install" ∷ []

-- The parameters behind the program.
unfoldable pub px_runc_params : Bool → List Bytes → SimpleContainerConfig → List Bytes
unfolding install_prefix mount_args env_args
px_runc_params need_install own cfg =
    (elim (install_prefix need_install) [ [] ↦ [] | program ∷ rest ↦ rest ])
    ++ (own ++ (mount_args cfg.mounts ++ env_args cfg.env_list))

abbrev pub px_runc_program : Bool → Bytes
px_runc_program true = inst_k8s_dir ++ lit "/bin/px-runc"
px_runc_program false = lit "/opt/pwx/bin/px-runc"

-- What the log of the installer container says of the kernel module.
abbrev pub cordon_of : Option LogReport → Bool
cordon_of none = false
cordon_of (some (log, some message)) = true
cordon_of (some (log, none)) = contains log (lit " require reboot ")

-- A long enough image ID.
abbrev pub long_id : Result Bytes Bytes → Option Bytes
long_id (err message) = none
long_id (ok id) = if ltb 19 (length id) then some id else none

module _ (env : Env) (debugs_on : Bool) (os_args : List Bytes) where
  -- `usage` ends the process with status 1.
  abbrev pub exit_on : Error → M (Unit {0})
  exit_on none = pure tt
  exit_on (some message) = exit 1

  abbrev pub pull_or_exit : Bytes → M (Unit {0})
  pull_or_exit image = do
    e ← pull_image_cb env image (do set_state_installing; pure none)
    exit_on e

  -- The installed image against the pulled one; equal IDs need no install.
  abbrev pub compare_ids : Bytes → Option Bytes → M Bool
  compare_ids pulled none = pure true
  compare_ids pulled (some installed) =
      if str_eq pulled installed then (do set_state_install_finished; pure false) else pure true

  abbrev pub check_id : SimpleContainerConfig → Option Bytes → M (Bool × SimpleContainerConfig)
  check_id cfg none = pure (true, cfg)
  check_id cfg (some pulled) = do
    installed ← extract_env_from_oci_config env (lit "/opt/pwx/oci/config.json") px_image_id_key
    need ← compare_ids pulled (long_id installed)
    pure (
      need,
      record cfg { env_list = cfg.env_list ++ ((px_image_id_key ++ (lit "=" ++ pulled)) ∷ []) },
    )

  -- Is an install needed? The pulled ID goes into the environment of the service.
  unfoldable pub need_install_of : Bytes → SimpleContainerConfig → M (Bool × SimpleContainerConfig)
  need_install_of image cfg = do id ← get_image_id env image; check_id cfg (long_id id)

  abbrev pub installer_params : List Bytes
  installer_params =
      (inst_k8s_dir ++ lit ":/opt/pwx")
      ∷ lit "/etc/pwx:/etc/pwx"
      ∷ lit "/runc-entry-point.sh"
      ∷ lit "--upgrade"
      ∷ (if debugs_on then lit "--debug" ∷ [] else [])

  abbrev pub cordon_or_exit : Error × Option LogReport → M Bool
  cordon_or_exit (some message, report) = exit 1
  cordon_or_exit (none, report) = pure (cordon_of report)

  -- The install into the separate directory. The result is `needCordon`.
  unfoldable pub run_installer : Bytes → Bool → M Bool
  run_installer image false = pure false
  run_installer image true = do
    r ← run_once env image (lit "px-oci-installer") installer_params
    cordon_or_exit r

  abbrev pub unit_time : Bool → M (Option ℕ)
  unit_time true = pure none
  unit_time false = do
    t ←
        ask (stat (service_file base_service_name))
          (λ events. env.mod_time events (service_file base_service_name))
    pure (elim t [ err message ↦ none | ok time ↦ some time ])

  -- Check 1: the unit file. `none` for an old time stands for the zero time.
  abbrev pub newer : ℕ → Result Bytes ℕ → Result Bytes Bool
  newer old (err message) =
      err (lit "Could not stat " ++ (service_file base_service_name ++ (lit ": " ++ message)))
  newer old (ok time) = ok (ltb old time)

  unfoldable pub unit_changed : Bool → Option ℕ → M (Result Bytes Bool)
  unit_changed true old = pure (ok true)
  unit_changed false none = do reload env oci_service; enable env oci_service; pure (ok true)
  unit_changed false (some old) = do
    t ←
        ask (stat (service_file base_service_name))
          (λ events. env.mod_time events (service_file base_service_name))
    pure (newer old t)

  abbrev pub status : Bool → Bool → Bool → InstallStatus
  status restart install cordon = record {
    need_restart = restart;
    need_install = install;
    need_cordon = cordon;
  }

  -- Check 2: the output of px-runc; the kubelet is only asked for when the SPEC line leaves it
  -- open. Check 3: the configuration file.
  unfoldable pub other_checks : Bytes → Bool → M Bool
  other_checks output changed = do
    required ← ask_restart_required (get_kubernetes_root_dir env) output
    config ← ask (stat px_config_file) (λ events. env.mod_time events px_config_file)
    pure (changed || required || (elim config [ err message ↦ true | ok time ↦ false ]))

  abbrev pub with_changed : Bool → Bool → Bytes → Result Bytes Bool → M (Result Bytes InstallStatus)
  with_changed install cordon output (err message) = pure (err message)
  with_changed install cordon output (ok c) = do
    restart ← other_checks output c
    pure (ok (status restart install cordon))

  -- From the run of px-runc on.
  abbrev pub after_runc : Bool → Bool → Option ℕ → Bytes → Error → M (Result Bytes InstallStatus)
  after_runc install cordon old output (some message) = pure (err message)
  after_runc install cordon old output none = do
    changed ← unit_changed install old
    with_changed install cordon output changed

  abbrev pub run_px_runc :
      Bool
      → Bool
      → Option ℕ
      → SimpleContainerConfig
      → Option (List Bytes)
      → M (Result Bytes InstallStatus)
  run_px_runc install cordon old cfg none = exit 2
  run_px_runc install cordon old cfg (some own) = do
    ran ← run_external env oci_service (px_runc_program install) (px_runc_params install own cfg)
    after_runc install cordon old ran.output ran.error

  unfoldable pub install_px_from_oci_image :
      Bytes → SimpleContainerConfig → M (Result Bytes InstallStatus)
  install_px_from_oci_image image cfg = do
    pull_or_exit image
    need ← need_install_of image cfg
    cordon ← run_installer image need.0
    old ← unit_time need.0
    run_px_runc need.0 cordon old need.1 (own_args os_args)
