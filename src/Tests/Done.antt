-- ===== src/Tests/Done.antt =====
-- An install that succeeds.
use px_installer.Base.{none, some, [], ◌≡◌, refl, ap, lit, index, has_prefix, contains}
use px_installer.Base.Result.{ok}
use px_installer.World.{Env, World, finished}
use px_installer.World.Monad.{ret}
use px_installer.Monitor.Args.{Settings, initial}
use px_installer.Inspect.{get_my_container_id}
use px_installer.Service.{run_external, do_op, judge, stop, reload, enable, restart}
use px_installer.Docker.LogReader.{docker_log_reader}
use px_installer.Docker.Pull.{
  new_docker_installer, extract_config, pull_image_cb, pull_stream, first_read, get_image_id,
}
use px_installer.Docker.RunOnce.{run_once, wait_for, log_report}
use px_installer.Monitor.Common.{is_exist, move_file_or_dir}
use px_installer.Monitor.Restart.{
  ask_restart_required, decided, index_above_0, mounts_changed, section,
}
use px_installer.Monitor.RootDir.{get_kubernetes_root_dir, find_root}
use px_installer.Monitor.Install.{
  install_px_from_oci_image, need_install_of, run_installer, own_args, unit_changed, other_checks,
}
use px_installer.Monitor.Finalize.{
  finalize_px_oci_install, sync_if, drain_if, switch_if, restart_service,
}
use px_installer.Monitor.Switch.{
  switch_oci_install, make_scratch, with_scratch, switch_parts, move_parts, move_part, remove_tree,
  reinstall, finish_switch, rollback_unless,
}
use px_installer.Monitor.DoInstall.{do_install, finalize_if, needs_finalize}
use px_installer.Monitor.DoInstall.Finished.{do_install-finished}
use px_installer.Tests.Host.{plain_host, start_world, labelled_node, my_container}

-- A host on which every command succeeds, and nothing is written to any log.
abbrev quiet_host : Env
quiet_host = record plain_host {
  run = λ h args. record { output = []; error = none };
  container_id = λ t. some (lit "me");
  contents = λ h p. ok [];
}

abbrev quiet_settings : Settings
quiet_settings = record initial { args = my_container.args }

abbrev quiet_world : World
quiet_world =
    (do_install quiet_host quiet_settings (lit "1.2.16") (labelled_node [] []) start_world).1

quiet-result :
    (do_install quiet_host quiet_settings (lit "1.2.16") (labelled_node [] []) start_world).0
    ≡ ret none
unfolding do_install get_my_container_id new_docker_installer extract_config
    install_px_from_oci_image pull_image_cb pull_stream first_read need_install_of get_image_id
    run_installer run_once wait_for log_report docker_log_reader own_args run_external unit_changed
    other_checks ask_restart_required decided index_above_0 index has_prefix contains lit
    get_kubernetes_root_dir find_root mounts_changed section finalize_if needs_finalize
    finalize_px_oci_install is_exist sync_if drain_if switch_if switch_oci_install make_scratch
    with_scratch switch_parts stop do_op judge move_parts move_part move_file_or_dir remove_tree
    reinstall finish_switch rollback_unless restart_service reload enable restart
quiet-result = refl

quiet-done :
    do_install quiet_host quiet_settings (lit "1.2.16") (labelled_node [] []) start_world
    ≡ (ret none, quiet_world)
quiet-done = ap (λ o. (o, quiet_world)) quiet-result

do_install-finished_example : quiet_world.state ≡ finished
do_install-finished_example =
    do_install-finished quiet_host quiet_settings (lit "1.2.16") (labelled_node [] []) start_world
      quiet_world quiet-done
