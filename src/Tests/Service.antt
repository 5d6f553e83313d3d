-- ===== src/Tests/Service.antt =====
-- Requests for the service, an uninstall, and the end of an upgrade.
use px_installer.Base.{
  true, false, none, some, [], ◌≡◌, refl, lit, if◌then◌else◌, has_prefix, str_eq, contains, any,
}
use px_installer.World.{Error, exec, Env, Node, World, uncordon, get_pods}
use px_installer.World.Monad.{ret, log}
use px_installer.Service.{
  op_error, stop, disable, remove, do_op, run_external, judge, handle_request,
}
use px_installer.Service.Requests.{stop_args, stop-handle_request}
use px_installer.Kubernetes.{drain_px_volume_consumer_pods, service_key}
use px_installer.Monitor.Common.{oci_service}
use px_installer.Monitor.Uninstall.{do_uninstall}
use px_installer.Monitor.Uninstall.Order.{do_uninstall-first_error}
use px_installer.Monitor.Finalize.{InstallStatus, finalize_px_oci_install}
use px_installer.Monitor.Finalize.Uncordon.{before_drain, finalize_px_oci_install-uncordon}
use px_installer.Tests.Host.{plain_host, start_world, labelled_node}

-- A host on which the service is not loaded.
abbrev unloaded_host : Env
unloaded_host = record plain_host {
  run = λ h args. record { output = lit "Unit not loaded"; error = some (lit "status 5") };
}

stop-handle_request_example :
    (stop unloaded_host oci_service start_world
      ≡ (ret none, log (exec (stop_args unloaded_host oci_service)) start_world))
    × (handle_request unloaded_host oci_service (lit "stop") start_world ≡ (
      ret (some (op_error oci_service (lit "stop") (lit "status 5"))),
      log (exec (stop_args unloaded_host oci_service)) start_world,
    ))
stop-handle_request_example =
    stop-handle_request unloaded_host oci_service start_world (lit "status 5") refl
      (unfold contains has_prefix lit in refl)

-- The service stops and is disabled, but its files cannot be removed.
abbrev stuck_host : Env
stuck_host = record plain_host {
  run = λ h args. record {
    output = [];
    error = if any (str_eq (lit "/bin/rm")) args then some (lit "busy") else none;
  };
}

abbrev stopped_world : World
stopped_world = (stop stuck_host oci_service start_world).1

abbrev disabled_world : World
disabled_world = (disable stuck_host oci_service stopped_world).1

abbrev removed_world : World
removed_world = (remove stuck_host oci_service disabled_world).1

steps :
    (stop stuck_host oci_service start_world ≡ (ret none, stopped_world))
    × (disable stuck_host oci_service stopped_world ≡ (ret none, disabled_world))
    × (remove stuck_host oci_service disabled_world
        ≡ (ret (some (lit "Could not remove all systemd files: busy")), removed_world))
unfolding stop disable remove do_op run_external judge str_eq lit
steps = (refl, refl, refl)

do_uninstall-first_error_example :
    do_uninstall stuck_host start_world
    ≡ (ret (some (lit "Could not remove all systemd files: busy")), removed_world)
do_uninstall-first_error_example =
    do_uninstall-first_error stuck_host start_world stopped_world disabled_world removed_world none
      none (some (lit "Could not remove all systemd files: busy")) steps.0 steps.1 steps.2

abbrev upgrade : InstallStatus
upgrade = record { need_restart = false; need_install = true; need_cordon = true }

abbrev one_node : Node
one_node = labelled_node service_key []

abbrev drained_world : World
drained_world = log (get_pods (lit "n1")) (before_drain plain_host true start_world)

drained :
    drain_px_volume_consumer_pods plain_host one_node false
      (before_drain plain_host true start_world)
    ≡ (ret none, drained_world)
unfolding drain_px_volume_consumer_pods
drained = refl

finalize_px_oci_install-uncordon_example :
    (e : Error) × (w' : World) × (finalize_px_oci_install plain_host one_node true false upgrade
        start_world
      ≡ (ret e, log (uncordon (lit "n1")) w'))
finalize_px_oci_install-uncordon_example =
    finalize_px_oci_install-uncordon plain_host one_node true false upgrade start_world
      drained_world refl drained
