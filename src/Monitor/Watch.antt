-- ===== src/Monitor/Watch.antt =====
-- `watchNodeLabels` of px-oci-mon/main.go.
pub mod Steady
pub mod Removal
pub mod Labels
use px_installer.Base.{
  Bool, true, false, not, ◌&&◌, Option, none, some, List, [], ◌∷◌, if◌then◌else◌, Bytes, lit,
  str_eq,
}
use px_installer.World.{Error, Env, Node, World}
use px_installer.World.Monad.{M, pure, modify, get, ◌>>=◌, ◌>>◌}
use px_installer.Service.{handle_request}
use px_installer.Kubernetes.{
  is_px_disabled, is_uninstall_requested, get_service_request, disable_px, remove_service_label,
}
use px_installer.Monitor.Args.{Settings}
use px_installer.Monitor.Common.{oci_service}
use px_installer.Monitor.DoInstall.{do_install}
use px_installer.Monitor.Uninstall.{do_uninstall}

module _ (env : Env) (settings : Settings) (px_tag : Bytes) (me_node : Node) where
  abbrev pub set_last_cmd : Bytes → M (Unit {0})
  set_last_cmd cmd = modify (λ w. record w { last_service_cmd = cmd })

  -- After the request was handled: an error leaves it to be repeated.
  unfoldable pub after_request : Node → Bytes → Error → M (Unit {0})
  after_request node req (some message) = pure tt
  after_request node req none =
      if str_eq req (lit "restart")
      then (do remove_service_label env node; set_last_cmd [])
      else set_last_cmd req

  unfoldable pub serve_request : Node → Bytes → Bytes → M (Unit {0})
  serve_request node req last =
      if str_eq req []
      then pure tt
      else if str_eq req last
      then pure tt
      else (do e ← handle_request env oci_service req; after_request node req e)

  unfoldable pub uninstall_if : Node → Bool → M (Unit {0})
  uninstall_if node false = pure tt
  uninstall_if node true = do do_uninstall env; disable_px env node; pure tt

  abbrev pub install_again : M (Unit {0})
  install_again = do do_install env settings px_tag me_node; pure tt

  unfoldable pub react : Node → Bool → Bool → M (Unit {0})
  react node false true = install_again
  react node true false = uninstall_if node (is_uninstall_requested node)
  react node _ _ = do
    last ← get World.last_service_cmd
    serve_request node (get_service_request node) last

  -- The deferred write comes last, unless the process has ended.
  unfoldable pub watch_node_labels : Node → M (Unit {0})
  watch_node_labels node = do
    last ← get World.last_px_disabled
    react node (is_px_disabled node) last
    modify (λ w. record w { last_px_disabled = is_px_disabled node })
