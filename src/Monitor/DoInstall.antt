-- ===== src/Monitor/DoInstall.antt =====
-- `doInstall` of px-oci-mon/main.go.
pub mod Finished
use px_installer.Base.{
  Bool, ◌||◌, Option, none, some, List, [], ◌∷◌, ◌++◌, if◌then◌else◌, Bytes, lit, str_eq,
  has_prefix,
}
use px_installer.Base.Result.{Result, ok, err}
use px_installer.World.{Error, Env, Node}
use px_installer.World.Monad.{M, pure, exit, ◌>>=◌, ◌>>◌}
use px_installer.Servlet.State.{set_state_install_finished}
use px_installer.Inspect.{SimpleContainerConfig, get_my_container_id}
use px_installer.Docker.Pull.{getenv, new_docker_installer, extract_config, DockerInstaller}
use px_installer.Monitor.Args.{Settings}
use px_installer.Monitor.Finalize.{InstallStatus, finalize_px_oci_install}
use px_installer.Monitor.Install.{px_image_key, install_px_from_oci_image}

-- `PX_IMAGE`, or the image for the tag that the program was built with.
unfoldable pub px_image : Env → Bytes → Bytes
px_image env px_tag =
    let image = getenv env px_image_key in
    if str_eq image [] then lit "portworx/px-enterprise:" ++ px_tag else image

unfoldable pub without_path : List Bytes → List Bytes
without_path [] = []
without_path (v ∷ entries) =
    let rest = without_path entries in if has_prefix v (lit "PATH=") then rest else v ∷ rest

abbrev add_image : Bytes → Option Bytes → List Bytes → List Bytes
add_image image (some v) entries = entries
add_image image none entries = entries ++ ((px_image_key ++ (lit "=" ++ image)) ∷ [])

-- The environment for the service: with `PX_IMAGE`, and without `PATH`.
unfoldable pub service_env : Env → Bytes → List Bytes → List Bytes
unfolding without_path
service_env env image entries = without_path (add_image image (env.env_var px_image_key) entries)

unfoldable pub needs_finalize : InstallStatus → Bool
needs_finalize st = st.need_restart || st.need_install || st.need_cordon

abbrev pub prefixed : Bytes → Error → Error
prefixed prefix none = none
prefixed prefix (some message) = some (prefix ++ message)

module _ (env : Env) (settings : Settings) (px_tag : Bytes) (me_node : Node) where
  abbrev pub image : Bytes
  image = px_image env px_tag

  unfoldable pub finalize_if : InstallStatus → M Error
  finalize_if st =
      if needs_finalize st
      then finalize_px_oci_install env me_node settings.pre_sync settings.drain_all_pods st
      else pure none

  abbrev pub set_finished_unless : Error → M Error
  set_finished_unless (some message) = pure (some message)
  set_finished_unless none = do set_state_install_finished; pure none

  abbrev pub after_install : Result Bytes InstallStatus → M Error
  after_install (err message) = pure (some (lit "Could not install Portworx service: " ++ message))
  after_install (ok st) = do
    e ← finalize_if st
    set_finished_unless (prefixed (lit "Could not finalize OCI install: ") e)

  abbrev pub with_config : Result Bytes SimpleContainerConfig → M Error
  with_config (err message) =
      pure (some (lit "Could not extract my container's configuration: " ++ message))
  with_config (ok cfg) = do
    st ←
        install_px_from_oci_image env settings.debugs_on settings.args image
          (record cfg { env_list = service_env env image cfg.env_list })
    after_install st

  -- Without Docker `usage` ends the process with status 1.
  abbrev pub with_installer : Bytes → Result Bytes DockerInstaller → M Error
  with_installer id (err message) = exit 1
  with_installer id (ok di) = do cfg ← extract_config env id; with_config cfg

  abbrev pub with_id : Result Bytes Bytes → M Error
  with_id (err message) = pure (some (lit "Could not determine my container ID: " ++ message))
  with_id (ok id) = do
    di ←
        new_docker_installer env (getenv env (lit "REGISTRY_USER"))
          (getenv env (lit "REGISTRY_PASS"))
    with_installer id di

  unfoldable pub do_install : M Error
  do_install = do id ← get_my_container_id env; with_id id
