-- ===== src/Monitor/Frame/Install.antt =====
-- `doInstall` and what it is made of.
use px_installer.Base.{ℕ, Bool, true, false, Option, none, some, List, Bytes, lit, str_eq}
use px_installer.Base.Result.{Result, ok, err}
use px_installer.World.{Error, Env, Node, World, installing, finished}
use px_installer.World.Monad.{pure, ◌>>◌}
use px_installer.Servlet.State.{set_state_installing, set_state_install_finished}
use px_installer.Service.{reload, enable, run_external}
use px_installer.Inspect.{
  SimpleContainerConfig, after_open, get_my_container_id, extract_env_from_oci_config,
}
use px_installer.Docker.Pull.{
  DockerInstaller, pull_image_cb, get_image_id, new_docker_installer, extract_config,
}
use px_installer.Docker.RunOnce.{LogReport, run_once}
use px_installer.Monitor.Args.{Settings}
use px_installer.Monitor.Common.{oci_service}
use px_installer.Monitor.Finalize.{InstallStatus}
use px_installer.Monitor.RootDir.{get_kubernetes_root_dir}
use px_installer.Monitor.Restart.{decided, answer_or_ask, ask_restart_required}
use px_installer.Monitor.Install.{
  exit_on, with_changed, pull_or_exit, compare_ids, check_id, need_install_of, installer_params,
  cordon_or_exit, run_installer, unit_time, unit_changed, other_checks, after_runc, run_px_runc,
  install_px_from_oci_image, long_id, own_args, px_image_id_key,
}
use px_installer.Monitor.DoInstall.{
  px_image, service_env, finalize_if, needs_finalize, prefixed, set_finished_unless, after_install,
  with_config, with_installer, with_id, do_install,
}
use px_installer.Monitor.Frame.{IsFrame, Keeps, bind-Keeps, if-Keeps, enable-Keeps, reload-Keeps}
use px_installer.Monitor.Frame.Switch.{finalize_px_oci_install-Keeps}
use px_installer.Monitor.Frame.Docker.{pull_image_cb-Keeps, run_once-Keeps}

module _ {holds : World → Type 0} (frame : IsFrame holds) (env : Env) where
  get_kubernetes_root_dir-Keeps : Keeps holds (get_kubernetes_root_dir env)
  unfolding get_kubernetes_root_dir run_external
  get_kubernetes_root_dir-Keeps w h = frame.logged _ w h

  extract_env-Keeps :
      (fname env_var : Bytes) → Keeps holds (extract_env_from_oci_config env fname env_var)
  unfolding extract_env_from_oci_config
  extract_env-Keeps fname env_var w h = frame.logged _ w h

  after_open-Keeps : (e : Error) → Keeps holds (after_open env e)
  after_open-Keeps (some m) w h = h
  after_open-Keeps none w h = frame.logged _ w h

  get_my_container_id-Keeps : Keeps holds (get_my_container_id env)
  unfolding get_my_container_id
  get_my_container_id-Keeps w h = after_open-Keeps _ _ (frame.logged _ w h)

  answer_or_ask-Keeps :
      (output : Bytes) (answer : Option Bool)
      → Keeps holds (answer_or_ask (get_kubernetes_root_dir env) output answer)
  answer_or_ask-Keeps output (some answer) w h = h
  answer_or_ask-Keeps output none w h =
      bind-Keeps (get_kubernetes_root_dir env) _ get_kubernetes_root_dir-Keeps (λ _ w h. h) w h

  ask_restart_required-Keeps :
      (output : Bytes) → Keeps holds (ask_restart_required (get_kubernetes_root_dir env) output)
  unfolding ask_restart_required
  ask_restart_required-Keeps output = answer_or_ask-Keeps output (decided output)

  module _ (debugs_on : Bool) (os_args : List Bytes) where
    finished-Keeps : Keeps holds set_state_install_finished
    finished-Keeps w h = frame.stated finished w (λ e. cc) h

    exit_on-Keeps : (e : Error) → Keeps holds (exit_on env debugs_on os_args e)
    exit_on-Keeps none w h = h
    exit_on-Keeps (some m) w h = h

    pull_or_exit-Keeps : (image : Bytes) → Keeps holds (pull_or_exit env debugs_on os_args image)
    pull_or_exit-Keeps image =
        bind-Keeps (pull_image_cb env image (do set_state_installing; pure none)) _
          (pull_image_cb-Keeps frame env image _ (λ w h. frame.stated installing w (λ e. cc) h))
          exit_on-Keeps

    compare_ids-Keeps :
        (pulled : Bytes) (installed : Option Bytes)
        → Keeps holds (compare_ids env debugs_on os_args pulled installed)
    compare_ids-Keeps pulled none w h = h
    compare_ids-Keeps pulled (some installed) w h =
        if-Keeps (str_eq pulled installed) (do set_state_install_finished; pure false) (pure true)
          finished-Keeps (λ w h. h) w h

    check_id-Keeps :
        (cfg : SimpleContainerConfig) (pulled : Option Bytes)
        → Keeps holds (check_id env debugs_on os_args cfg pulled)
    check_id-Keeps cfg none w h = h
    check_id-Keeps cfg (some pulled) w h =
        bind-Keeps
          (extract_env_from_oci_config env (lit "/opt/pwx/oci/config.json") px_image_id_key) _
          (extract_env-Keeps _ _)
          (λ installed.
            bind-Keeps (compare_ids env debugs_on os_args pulled (long_id installed)) _
              (compare_ids-Keeps pulled _) (λ _ w h. h))
          w h

    need_install_of-Keeps :
        (image : Bytes) (cfg : SimpleContainerConfig)
        → Keeps holds (need_install_of env debugs_on os_args image cfg)
    unfolding need_install_of get_image_id
    need_install_of-Keeps image cfg w h =
        check_id-Keeps cfg (long_id (env.image_id w.events image)) _ (frame.logged _ w h)

    cordon_or_exit-Keeps :
        (r : Error × Option LogReport) → Keeps holds (cordon_or_exit env debugs_on os_args r)
    cordon_or_exit-Keeps (some m, report) w h = h
    cordon_or_exit-Keeps (none, report) w h = h

    run_installer-Keeps :
        (image : Bytes) (need : Bool) → Keeps holds (run_installer env debugs_on os_args image need)
    unfolding run_installer
    run_installer-Keeps image false w h = h
    run_installer-Keeps image true w h =
        bind-Keeps
          (run_once env image (lit "px-oci-installer") (installer_params env debugs_on os_args)) _
          (run_once-Keeps frame env _ _ _) cordon_or_exit-Keeps w h

    unit_time-Keeps : (need : Bool) → Keeps holds (unit_time env debugs_on os_args need)
    unit_time-Keeps true w h = h
    unit_time-Keeps false w h = frame.logged _ w h

    unit_changed-Keeps :
        (need : Bool) (old : Option ℕ) → Keeps holds (unit_changed env debugs_on os_args need old)
    unfolding unit_changed
    unit_changed-Keeps true old w h = h
    unit_changed-Keeps false none w h =
        bind-Keeps (reload env oci_service) _ (reload-Keeps frame env _)
          (λ _. bind-Keeps (enable env oci_service) _ (enable-Keeps frame env _) (λ _ w h. h)) w h
    unit_changed-Keeps false (some old) w h = frame.logged _ w h

    other_checks-Keeps :
        (output : Bytes) (changed : Bool)
        → Keeps holds (other_checks env debugs_on os_args output changed)
    unfolding other_checks
    other_checks-Keeps output changed =
        bind-Keeps (ask_restart_required (get_kubernetes_root_dir env) output) _
          (ask_restart_required-Keeps output) (λ _ w h. frame.logged _ w h)

    with_changed-Keeps :
        (need cordon : Bool) (output : Bytes) (changed : Result Bytes Bool)
        → Keeps holds (with_changed env debugs_on os_args need cordon output changed)
    with_changed-Keeps need cordon output (err m) w h = h
    with_changed-Keeps need cordon output (ok c) w h =
        bind-Keeps (other_checks env debugs_on os_args output c) _ (other_checks-Keeps output c)
          (λ _ w h. h) w h

    after_runc-Keeps :
        (need cordon : Bool) (old : Option ℕ) (output : Bytes) (e : Error)
        → Keeps holds (after_runc env debugs_on os_args need cordon old output e)
    after_runc-Keeps need cordon old output (some m) w h = h
    after_runc-Keeps need cordon old output none w h =
        bind-Keeps (unit_changed env debugs_on os_args need old) _ (unit_changed-Keeps need old)
          (with_changed-Keeps need cordon output) w h

    run_px_runc-Keeps :
        (need cordon : Bool) (old : Option ℕ) (cfg : SimpleContainerConfig)
        (own : Option (List Bytes))
        → Keeps holds (run_px_runc env debugs_on os_args need cordon old cfg own)
    unfolding run_external
    run_px_runc-Keeps need cordon old cfg none w h = h
    run_px_runc-Keeps need cordon old cfg (some own) w h =
        after_runc-Keeps need cordon old _ _ _ (frame.logged _ w h)

    install_px_from_oci_image-Keeps :
        (image : Bytes) (cfg : SimpleContainerConfig)
        → Keeps holds (install_px_from_oci_image env debugs_on os_args image cfg)
    unfolding install_px_from_oci_image
    install_px_from_oci_image-Keeps image cfg =
        bind-Keeps (pull_or_exit env debugs_on os_args image) _ (pull_or_exit-Keeps image) λ _.
          bind-Keeps (need_install_of env debugs_on os_args image cfg) _
            (need_install_of-Keeps image cfg)
            λ need.
              bind-Keeps (run_installer env debugs_on os_args image need.0) _
                (run_installer-Keeps image need.0)
                λ cordon.
                  bind-Keeps (unit_time env debugs_on os_args need.0) _ (unit_time-Keeps need.0)
                    λ old. run_px_runc-Keeps need.0 cordon old need.1 (own_args os_args)

module _ {holds : World → Type 0} (frame : IsFrame holds) (env : Env) (s : Settings)
    (px_tag : Bytes) (n : Node) where
  finalize_if-Keeps : (st : InstallStatus) → Keeps holds (finalize_if env s px_tag n st)
  unfolding finalize_if
  finalize_if-Keeps st =
      if-Keeps (needs_finalize st) _ (pure none)
        (finalize_px_oci_install-Keeps frame env n s.pre_sync s.drain_all_pods st) (λ w h. h)

  set_finished_unless-Keeps : (e : Error) → Keeps holds (set_finished_unless env s px_tag n e)
  set_finished_unless-Keeps none w h = finished-Keeps frame env s.debugs_on s.args w h
  set_finished_unless-Keeps (some m) w h = h

  after_install-Keeps :
      (r : Result Bytes InstallStatus) → Keeps holds (after_install env s px_tag n r)
  after_install-Keeps (err m) w h = h
  after_install-Keeps (ok st) w h =
      bind-Keeps (finalize_if env s px_tag n st) _ (finalize_if-Keeps st)
        (λ e. set_finished_unless-Keeps (prefixed (lit "Could not finalize OCI install: ") e)) w h

  with_config-Keeps :
      (r : Result Bytes SimpleContainerConfig) → Keeps holds (with_config env s px_tag n r)
  with_config-Keeps (err m) w h = h
  with_config-Keeps (ok cfg) w h =
      let env_list : List Bytes = service_env env (px_image env px_tag) cfg.env_list in
      bind-Keeps
        (install_px_from_oci_image env s.debugs_on s.args (px_image env px_tag)
          (record cfg { env_list = env_list }))
        _ (install_px_from_oci_image-Keeps frame env s.debugs_on s.args _ _) after_install-Keeps w h

  with_installer-Keeps :
      (id : Bytes) (r : Result Bytes DockerInstaller)
      → Keeps holds (with_installer env s px_tag n id r)
  unfolding extract_config
  with_installer-Keeps id (err m) w h = h
  with_installer-Keeps id (ok di) w h = with_config-Keeps _ _ (frame.logged _ w h)

  with_id-Keeps : (r : Result Bytes Bytes) → Keeps holds (with_id env s px_tag n r)
  unfolding new_docker_installer
  with_id-Keeps (err m) w h = h
  with_id-Keeps (ok id) w h = with_installer-Keeps id _ _ (frame.logged _ w h)

  pub do_install-Keeps : Keeps holds (do_install env s px_tag n)
  unfolding do_install
  do_install-Keeps =
      bind-Keeps (get_my_container_id env) _ (get_my_container_id-Keeps frame env) with_id-Keeps
