-- ===== src/Tests/Switch.antt =====
-- A switch whose installer fails, and the watcher.
use px_installer.Base.{none, [], ◌∷◌, ◌≡◌, inr, refl, lit, str_eq, to_lower, lower}
use px_installer.World.{Env, exec, Node, World}
use px_installer.World.Monad.{ret}
use px_installer.Monitor.Common.{oci_service}
use px_installer.Service.{
  nsenter, systemctl, handle_request, do_op, run_external, judge, is_request,
}
use px_installer.Kubernetes.{service_key, get_service_request, is_px_disabled, lookup}
use px_installer.Monitor.Args.{initial}
use px_installer.Monitor.Switch.{org, switch_oci_install}
use px_installer.Monitor.Switch.Files.{IsFileSystem}
use px_installer.Monitor.Switch.Success.{AllSucceeds, Switched, switch_oci_install-Switched}
use px_installer.Monitor.Switch.Atomic.{KeepsOld, switch_oci_install-KeepsOld}
use px_installer.Monitor.Watch.{watch_node_labels, react, serve_request, after_request}
use px_installer.Monitor.Watch.Steady.{watch_node_labels-again}
use px_installer.Monitor.Watch.Labels.{LabelStep, watch_node_labels-LabelStep}
use px_installer.Kubernetes.{is_px_disabled}
use px_installer.Tests.Host.{plain_host, start_world, labelled_node}
use px_installer.Tests.Disk.{disk, disk_host, disk_lem, disk-CanRollBack, mv-runs, none-ne-some}

switch_oci_install-KeepsOld_example :
    KeepsOld disk (disk [] org) (switch_oci_install disk_host start_world)
switch_oci_install-KeepsOld_example =
    switch_oci_install-KeepsOld disk_lem start_world disk-CanRollBack (λ h. refl)

-- The same disk under commands that all succeed.
abbrev fine_host : Env
fine_host = record disk_host { run = λ h args. record { output = []; error = none } }

fine_lem : IsFileSystem fine_host disk
fine_lem = record {
  missing = disk_lem.missing;
  after_stat = disk_lem.after_stat;
  moved = λ h a b p c q ok empty. disk_lem.moved h a b p c q (mv-runs h a b p) empty;
  not_moved = λ h a b p c q message e. absurd (none-ne-some e);
  removed = disk_lem.removed;
  no_scratch = disk_lem.no_scratch;
  purged = disk_lem.purged;
  after_mkdir = disk_lem.after_mkdir;
  after_stop = disk_lem.after_stop;
  after_px_runc = disk_lem.after_px_runc;
  after_launch = disk_lem.after_launch;
}

fine-AllSucceeds : AllSucceeds fine_host
fine-AllSucceeds = record { runs = λ h args. refl; purges = λ h. refl; makes = λ h. refl }

switch_oci_install-Switched_example :
    Switched fine_lem fine-AllSucceeds start_world (switch_oci_install fine_host start_world)
switch_oci_install-Switched_example =
    switch_oci_install-Switched fine_lem fine-AllSucceeds start_world

abbrev started_node : Node
started_node = labelled_node service_key (lit "start")

-- The world after the first notification: the command was run, and is the last one.
abbrev served_world : World
served_world = record start_world {
  events = exec (nsenter oci_service (lit "/bin/sh") (systemctl oci_service (lit "start"))) ∷ [];
  last_service_cmd = lit "start";
}

watch_started :
    watch_node_labels plain_host initial (lit "px:1") started_node started_node start_world
    ≡ (ret tt, served_world)
unfolding watch_node_labels react serve_request after_request handle_request do_op run_external
    judge is_request is_px_disabled get_service_request lookup str_eq to_lower lower lit
watch_started = refl

start_served : get_service_request started_node ≡ lit "start"
unfolding get_service_request lookup str_eq to_lower lower lit
start_served = refl

watch_node_labels-again_example :
    watch_node_labels plain_host initial (lit "px:1") started_node started_node served_world
    ≡ (ret tt, served_world)
watch_node_labels-again_example =
    watch_node_labels-again plain_host initial (lit "px:1") started_node started_node start_world
      served_world watch_started (inr start_served)

watch_node_labels-LabelStep_example :
    (served_world.last_px_disabled ≡ is_px_disabled started_node)
    × LabelStep plain_host started_node start_world served_world.last_service_cmd
watch_node_labels-LabelStep_example =
    watch_node_labels-LabelStep plain_host initial (lit "px:1") started_node started_node
      start_world served_world watch_started
