-- ===== src/Tests/Start.antt =====
-- Starts of the monitor, and a notification behind one.
use px_installer.Base.{
  ℕ, true, false, none, some, ◌∷◌, ◌++◌, ◌≡◌, refl, if◌then◌else◌, Bytes, lit, str_eq, to_lower,
  lower,
}
use mathlib.Core.List.{reverse}
use mathlib.Core.List.Perm
use mathlib.Core.List.Permᴰ
use px_installer.Monitor.Start.Order.{start_up-Perm}
use px_installer.Base.Result.{Result, ok}
use px_installer.World.{Env, Node, World, finished, watch_node}
use px_installer.World.Monad.{ret, exited}
use px_installer.Service.{run_external, do_op, judge, is_request, handle_request}
use px_installer.Kubernetes.{
  is_px_disabled, in_array, lookup, enablement_key, label_false, service_key, get_service_request,
  find_node,
}
use px_installer.Inspect.{cgroup_file, get_my_container_id}
use px_installer.Servlet.State.{new_rest_servlet, start_rest}
use px_installer.Monitor.Args.{initial}
use px_installer.Monitor.Mounted.{validate_mounted, err_mounts}
use px_installer.Monitor.Install.{oci_private_mounts}
use px_installer.Monitor.DoInstall.{do_install}
use px_installer.Monitor.Watch.{react, serve_request, after_request, watch_node_labels}
use px_installer.Monitor.Start.{
  tag_or_default, container_dirs, finish_start, first_operation, with_node, start_up,
}
use px_installer.Monitor.Start.Outcomes.{serving, start_up-install, start_up-disabled}
use px_installer.Monitor.Process.{notified, started, stepped}
use px_installer.Monitor.Process.Invariant.{Good, Reach-Good}
use px_installer.Tests.Host.{plain_host, start_world, labelled_node}

abbrev devices : Bytes → Result Bytes ℕ
devices p = if str_eq p (lit "/") then ok 1 else ok 2

abbrev release : Bytes
release = lit "1.2.16"

all_mounted : validate_mounted devices (container_dirs oci_private_mounts) ≡ none
unfolding validate_mounted err_mounts str_eq lit
all_mounted = refl

-- A node whose label keeps Portworx off.
abbrev off_node : Node
off_node = labelled_node enablement_key label_false

abbrev off_host : Env
off_host = record plain_host { my_node = λ h. ok (some off_node) }

off_node-is_px_disabled : is_px_disabled off_node ≡ true
unfolding is_px_disabled in_array lookup str_eq to_lower lower lit
off_node-is_px_disabled = refl

start_up-disabled_example :
    start_up off_host release devices initial oci_private_mounts start_world ≡ (
      ret off_node,
      record (serving off_host release devices initial off_node oci_private_mounts start_world) {
        events =
            watch_node (lit "n1")
            ∷ watch_node (lit "n1")
            ∷ (serving off_host release devices initial off_node oci_private_mounts
                start_world).events;
        state = finished;
        last_px_disabled = false;
      },
    )
start_up-disabled_example =
    start_up-disabled off_host release devices initial off_node oci_private_mounts start_world
      (all_mounted, refl) off_node-is_px_disabled refl

-- A node with a request for the service, on a host where the monitor does not find its container.
abbrev asking_node : Node
asking_node = labelled_node service_key (lit "start")

abbrev asking_host : Env
asking_host = record plain_host { my_node = λ h. ok (some asking_node) }

asking_node-enabled : is_px_disabled asking_node ≡ false
unfolding is_px_disabled in_array lookup str_eq to_lower lower lit
asking_node-enabled = refl

abbrev installed_world : World
installed_world =
    (do_install asking_host initial (tag_or_default release) asking_node
      (serving asking_host release devices initial asking_node oci_private_mounts start_world)).1

abbrev not_found_message : Bytes
not_found_message =
    lit "Could not determine my container ID: "
    ++ (lit "Unable to read " ++ (cgroup_file ++ (lit ": " ++ lit "no such file")))

not_found :
    do_install asking_host initial
      (tag_or_default release)
      asking_node
      (serving asking_host release devices initial asking_node oci_private_mounts start_world)
    ≡ (ret (some not_found_message), installed_world)
unfolding do_install get_my_container_id
not_found = refl

start_up-install_example :
    start_up asking_host release devices initial oci_private_mounts start_world
    ≡ (exited 255, installed_world)
start_up-install_example =
    start_up-install asking_host release devices initial asking_node oci_private_mounts start_world
      installed_world (some not_found_message) (all_mounted, refl) asking_node-enabled not_found

-- The start on the disabled node, and then a request to start the service.
abbrev started_world : World
started_world = (start_up off_host release devices initial oci_private_mounts start_world).1

abbrev served_start : World
served_start =
    (watch_node_labels off_host initial (tag_or_default release) off_node asking_node
      started_world).1

off-started :
    start_up off_host release devices initial oci_private_mounts start_world
    ≡ (ret off_node, started_world)
unfolding start_up validate_mounted str_eq lit err_mounts find_node with_node new_rest_servlet
    start_rest first_operation is_px_disabled lookup in_array to_lower lower finish_start
off-started = refl

off-notified :
    watch_node_labels off_host initial (tag_or_default release) off_node asking_node started_world
    ≡ (ret tt, served_start)
unfolding watch_node_labels react serve_request after_request handle_request is_request do_op
    run_external judge is_px_disabled get_service_request in_array lookup str_eq to_lower lower lit
    start_up with_node find_node new_rest_servlet start_rest first_operation finish_start
    validate_mounted err_mounts
off-notified = refl

Reach-Good_example : Good off_host served_start
Reach-Good_example =
    Reach-Good off_host release devices initial (λ n. lit "5") off_node served_start
      (stepped started_world served_start
        (started oci_private_mounts start_world started_world (Perm.refl oci_private_mounts) refl
          off-started)
        (notified asking_node started_world served_start off-notified))

start_up-Perm_example :
    start_up off_host release devices initial (reverse oci_private_mounts) start_world
    ≡ start_up off_host release devices initial oci_private_mounts start_world
start_up-Perm_example =
    start_up-Perm off_host release devices initial (reverse oci_private_mounts) oci_private_mounts
      start_world ∣ Permᴰ.reverse oci_private_mounts ∣₁
