-- ===== src/Monitor/Uninstall.antt =====
-- `doUninstall` of px-oci-mon/main.go.
pub mod Order
use px_installer.Base.{Bool, Option, none, some, [], ◌∷◌, Bytes, lit, if◌then◌else◌}
use px_installer.World.{Error, Env, World}
use px_installer.World.Monad.{M, pure, ◌>>=◌, ◌>>◌}
use px_installer.Service.{stop, disable, remove, run_external}
use px_installer.Monitor.Common.{
  oci_service, addtl_service, addtl_svc_name, service_file, on_ok, is_exist,
}

module _ (env : Env) where
  -- The additional service: its errors are only logged.
  unfoldable pub remove_addtl : M (Unit {0})
  remove_addtl = do
    there ← is_exist env (service_file addtl_svc_name)
    (if there
        then (do
          stop env addtl_service
          disable env addtl_service
          run_external env addtl_service (lit "/bin/rm")
              (lit "-f" ∷ service_file addtl_svc_name ∷ [])
          pure tt)
        else pure tt)

  unfoldable pub after_remove : Error → M Error
  after_remove (some message) = pure (some message)
  after_remove none = do remove_addtl; pure none

  unfoldable pub do_uninstall : M Error
  do_uninstall = do
    stopped ← stop env oci_service
    on_ok stopped (do
      disabled ← disable env oci_service
      on_ok disabled (do removed ← remove env oci_service; after_remove removed))
