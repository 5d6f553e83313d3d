-- ===== src/Monitor/Finalize.antt =====
-- `finalizePxOciInstall` of px-oci-mon/main.go.
pub mod Uncordon
use px_installer.Base.{
  Bool, true, false, not, Option, none, some, List, [], ◌∷◌, ◌++◌, Bytes, lit, if◌then◌else◌, ◌&&◌,
}
use px_installer.World.{Error, Env, Node, World, sync}
use px_installer.World.Monad.{M, pure, ◌>>=◌, ◌>>◌, ask}
use px_installer.Service.{reload, enable, restart}
use px_installer.Kubernetes.{drain_px_volume_consumer_pods, uncordon_node}
use px_installer.Monitor.Common.{
  oci_service, addtl_service, addtl_svc_name, base_service_name, service_file, on_ok, is_exist,
}
use px_installer.Monitor.Switch.{switch_oci_install}

pub record InstallStatus : Type 0 where
  pub need_restart : Bool
  pub need_install : Bool
  pub need_cordon : Bool

unfoldable pub sync_if : Bool → M Error
sync_if false = pure none
sync_if true = ask sync (λ _. none)

module _ (env : Env) (me_node : Node) where
  -- Drain, if it is called for. The result says whether the uncordon is deferred.
  unfoldable pub drain_if : Bool → Bool → M Bool
  drain_if drain_all false = pure false
  drain_if drain_all true = do
    e ← drain_px_volume_consumer_pods env me_node drain_all
    pure (elim e [ none ↦ true | some _ ↦ false ])

  abbrev pub uncordon_if : Bool → Error → M Error
  uncordon_if false e = pure e
  uncordon_if true e = do uncordon_node env me_node; pure e

  -- From "Reloading + Restarting" on.
  unfoldable pub restart_service : Bool → M Error
  restart_service initial_install = do
    reload env oci_service
    (if initial_install then enable env oci_service else pure none)
    there ← is_exist env (service_file addtl_svc_name)
    (if there then enable env addtl_service else pure none)
    restart env oci_service

  unfoldable pub switch_if : Bool → M Error
  switch_if false = pure none
  switch_if true = switch_oci_install env

  -- The deferred uncordon runs after the result is known, on every path.
  unfoldable pub finalize_px_oci_install : Bool → Bool → InstallStatus → M Error
  finalize_px_oci_install pre_sync drain_all status = do
    there ← is_exist env (service_file base_service_name)
    sync_if pre_sync
    deferred ← drain_if drain_all (status.need_install && status.need_cordon)
    switched ← switch_if status.need_install
    e ← on_ok switched (restart_service (not there))
    uncordon_if deferred e
