-- ===== src/Monitor/Frame/Switch.antt =====
-- The switch of the files, the end of an install, and an uninstall.
use px_installer.Base.{
  not, ◌&&◌, if◌then◌else◌, Bool, true, false, none, some, List, [], ◌∷◌, Bytes, lit,
}
use px_installer.World.{Error, Env, Node, World}
use px_installer.World.Monad.{pure}
use px_installer.Service.{stop, disable, reload, remove, run_external}
use px_installer.Kubernetes.{drain_px_volume_consumer_pods, uncordon_node}
use px_installer.Monitor.Common.{
  oci_service, addtl_service, addtl_svc_name, base_service_name, service_file, inst_scratch_dir,
  is_exist, on_ok,
}
use px_installer.Monitor.Switch.{
  Part, org, scr, path, px_runc, oci_parts, remove_tree, rollback_part, rollback, rollback_unless,
  save_part, move_part, move_parts, reinstall, finish_switch, switch_parts, make_scratch,
  with_scratch, switch_oci_install,
}
use px_installer.Monitor.Finalize.{
  InstallStatus, sync_if, drain_if, uncordon_if, restart_service, switch_if,
  finalize_px_oci_install,
}
use px_installer.Monitor.Uninstall.{remove_addtl, after_remove, do_uninstall}
use px_installer.Monitor.Frame.{
  IsFrame, Keeps, bind-Keeps, if-Keeps, on_ok-Keeps, run_external-Keeps, stop-Keeps, restart-Keeps,
  enable-Keeps, disable-Keeps, reload-Keeps, remove-Keeps, drain_px_volume_consumer_pods-Keeps,
  is_exist-Keeps, move_file_or_dir-Keeps,
}

module _ {holds : World → Type 0} (frame : IsFrame holds) (env : Env) where
  remove_tree-Keeps : (path : Bytes) → Keeps holds (remove_tree env path)
  unfolding remove_tree
  remove_tree-Keeps path w h = frame.logged _ w h

  rollback_part-Keeps : (p : Part) → Keeps holds (rollback_part env p)
  unfolding rollback_part
  rollback_part-Keeps p = bind-Keeps (is_exist env (path scr p)) _ (is_exist-Keeps frame env _) λ b.
      if-Keeps b _ _
        (bind-Keeps (remove_tree env (path org p)) _ (remove_tree-Keeps _)
          (λ _. move_file_or_dir-Keeps frame env _ _))
        (λ w h. h)

  rollback-Keeps : (parts : List Part) → Keeps holds (rollback env parts)
  unfolding rollback
  rollback-Keeps [] w h = h
  rollback-Keeps (p ∷ parts) w h =
      bind-Keeps (rollback_part env p) _ (rollback_part-Keeps p) (λ _. rollback-Keeps parts) w h

  rollback_unless-Keeps : (e : Error) → Keeps holds (rollback_unless env e)
  unfolding rollback_unless
  rollback_unless-Keeps none w h = h
  rollback_unless-Keeps (some m) w h = rollback-Keeps oci_parts w h

  save_part-Keeps : (p : Part) (there : Bool) → Keeps holds (save_part env p there)
  save_part-Keeps p false w h = h
  save_part-Keeps p true w h = move_file_or_dir-Keeps frame env _ _ w h

  move_part-Keeps : (p : Part) → Keeps holds (move_part env p)
  unfolding move_part
  move_part-Keeps p = bind-Keeps (is_exist env (path org p)) _ (is_exist-Keeps frame env _) λ there.
      bind-Keeps (save_part env p there) _ (save_part-Keeps p there)
        λ saved. on_ok-Keeps saved _ (move_file_or_dir-Keeps frame env _ _)

  move_parts-Keeps : (parts : List Part) → Keeps holds (move_parts env parts)
  unfolding move_parts
  move_parts-Keeps [] w h = h
  move_parts-Keeps (p ∷ parts) w h =
      bind-Keeps (move_part env p) _ (move_part-Keeps p)
        (λ e. on_ok-Keeps e _ (move_parts-Keeps parts)) w h

  reinstall-Keeps : Keeps holds (reinstall env)
  unfolding reinstall
  reinstall-Keeps =
      bind-Keeps (run_external env oci_service px_runc (lit "install" ∷ [])) _
        (run_external-Keeps frame env _ _ _) (λ _ w h. h)

  finish_switch-Keeps : (e : Error) → Keeps holds (finish_switch env e)
  unfolding finish_switch
  finish_switch-Keeps e =
      bind-Keeps (rollback_unless env e) _ (rollback_unless-Keeps e) (λ _ w h. frame.logged _ w h)

  switch_parts-Keeps : Keeps holds (switch_parts env)
  unfolding switch_parts
  switch_parts-Keeps = bind-Keeps (stop env oci_service) _ (stop-Keeps frame env _) λ _.
      bind-Keeps (move_parts env oci_parts) _ (move_parts-Keeps oci_parts)
        λ moved. bind-Keeps _ _ (on_ok-Keeps moved _ reinstall-Keeps) finish_switch-Keeps

  make_scratch-Keeps : Keeps holds (make_scratch env)
  unfolding make_scratch
  make_scratch-Keeps =
      bind-Keeps (is_exist env inst_scratch_dir) _ (is_exist-Keeps frame env _) λ there.
        bind-Keeps (if there then remove_tree env inst_scratch_dir else pure none) _
          (if-Keeps there _ _ (remove_tree-Keeps inst_scratch_dir) (λ w h. h))
          (λ _ w h. frame.logged _ w h)

  with_scratch-Keeps : (e : Error) → Keeps holds (with_scratch env e)
  unfolding with_scratch
  with_scratch-Keeps none w h = switch_parts-Keeps w h
  with_scratch-Keeps (some m) w h = h

  switch_oci_install-Keeps : Keeps holds (switch_oci_install env)
  unfolding switch_oci_install
  switch_oci_install-Keeps = bind-Keeps (make_scratch env) _ make_scratch-Keeps with_scratch-Keeps

  sync_if-Keeps : (b : Bool) → Keeps holds (sync_if b)
  unfolding sync_if
  sync_if-Keeps false w h = h
  sync_if-Keeps true w h = frame.logged _ w h

  drain_if-Keeps : (n : Node) (all b : Bool) → Keeps holds (drain_if env n all b)
  unfolding drain_if
  drain_if-Keeps n all false w h = h
  drain_if-Keeps n all true w h =
      bind-Keeps (drain_px_volume_consumer_pods env n all) _
        (drain_px_volume_consumer_pods-Keeps frame env n all) (λ _ w h. h) w h

  uncordon_if-Keeps : (n : Node) (b : Bool) (e : Error) → Keeps holds (uncordon_if env n b e)
  unfolding uncordon_node
  uncordon_if-Keeps n false e w h = h
  uncordon_if-Keeps n true e w h = frame.logged _ w h

  restart_service-Keeps : (n : Node) (b : Bool) → Keeps holds (restart_service env n b)
  unfolding restart_service
  restart_service-Keeps n b = bind-Keeps (reload env oci_service) _ (reload-Keeps frame env _) λ _.
      bind-Keeps _ _ (if-Keeps b _ _ (enable-Keeps frame env oci_service) (λ w h. h)) λ _.
        bind-Keeps (is_exist env (service_file addtl_svc_name)) _ (is_exist-Keeps frame env _)
          λ there.
            bind-Keeps _ _ (if-Keeps there _ _ (enable-Keeps frame env addtl_service) (λ w h. h))
              λ _. restart-Keeps frame env oci_service

  switch_if-Keeps : (n : Node) (b : Bool) → Keeps holds (switch_if env n b)
  unfolding switch_if
  switch_if-Keeps n false w h = h
  switch_if-Keeps n true w h = switch_oci_install-Keeps w h

  pub finalize_px_oci_install-Keeps :
      (n : Node) (pre_sync drain_all : Bool) (st : InstallStatus)
      → Keeps holds (finalize_px_oci_install env n pre_sync drain_all st)
  unfolding finalize_px_oci_install
  finalize_px_oci_install-Keeps n pre_sync drain_all st =
      bind-Keeps (is_exist env (service_file base_service_name)) _ (is_exist-Keeps frame env _)
        λ there. bind-Keeps (sync_if pre_sync) _ (sync_if-Keeps pre_sync) λ _.
          bind-Keeps (drain_if env n drain_all (st.need_install && st.need_cordon)) _
            (drain_if-Keeps n drain_all _)
            λ deferred.
              bind-Keeps (switch_if env n st.need_install) _ (switch_if-Keeps n _) λ switched.
                bind-Keeps (on_ok switched (restart_service env n (not there))) _
                  (on_ok-Keeps switched _ (restart_service-Keeps n _))
                  (uncordon_if-Keeps n deferred)

  remove_addtl-Keeps : Keeps holds (remove_addtl env)
  unfolding remove_addtl
  remove_addtl-Keeps =
      bind-Keeps (is_exist env (service_file addtl_svc_name)) _ (is_exist-Keeps frame env _)
        λ there.
          if-Keeps there _ _
            (bind-Keeps (stop env addtl_service) _ (stop-Keeps frame env _) λ _.
              bind-Keeps (disable env addtl_service) _ (disable-Keeps frame env _)
                λ _. bind-Keeps _ _ (run_external-Keeps frame env addtl_service _ _) (λ _ w h. h))
            (λ w h. h)

  after_remove-Keeps : (e : Error) → Keeps holds (after_remove env e)
  unfolding after_remove
  after_remove-Keeps none w h = bind-Keeps (remove_addtl env) _ remove_addtl-Keeps (λ _ w h. h) w h
  after_remove-Keeps (some m) w h = h

  pub do_uninstall-Keeps : Keeps holds (do_uninstall env)
  unfolding do_uninstall
  do_uninstall-Keeps = bind-Keeps (stop env oci_service) _ (stop-Keeps frame env _) λ e1.
      on_ok-Keeps e1 _ (
        bind-Keeps (disable env oci_service) _ (disable-Keeps frame env _) λ e2.
          on_ok-Keeps e2 _
            (bind-Keeps (remove env oci_service) _ (remove-Keeps frame env _) after_remove-Keeps))
