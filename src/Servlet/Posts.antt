-- ===== src/Servlet/Posts.antt =====
-- The requests of the actions of the REST service.
use px_installer.Base.{
  ◌<◌, Bool, true, false, none, some, List, [], ◌∷◌, ◌++◌, ◌≡◌, refl, ◌∙◌, arith, ℕ, Option-cases,
  Bool-cases, inl, inr, Bytes, lit, contains, has_prefix-append, length, any, str_eq, to_upper,
}
use px_installer.Base.Result.{Result, ok, err}
use px_installer.World.{Error, Env, Node, Pod, World, get_pods}
use px_installer.World.Monad.{M, ret, log}
use px_installer.Service.{OciServiceControl, start, stop, restart, enable, disable, judge, do_op}
use px_installer.Kubernetes.{
  drain_px_volume_consumer_pods, drain_found, drain_chosen, chosen_pods, filter_managed,
}
use px_installer.Kubernetes.Labels.{chosen_pods-filter_managed}
use px_installer.Servlet.Actions.{
  Action, start_service, stop_service, restart_service, enable_service, disable_service,
  drain_every_pod, drain_managed_pods, path_of, completed, host_command, managed_of, no_error,
  command_effect, drained_effect, drain_effect, effect, Posts,
}
use px_installer.Servlet.{done_message, operation}
use px_installer.Servlet.Answers.{handle_oci_rest-post}

path_of-long : (a : Action) → 1 < length (path_of a)
unfolding lit
path_of-long start_service = omega arith
path_of-long stop_service = omega arith
path_of-long restart_service = omega arith
path_of-long enable_service = omega arith
path_of-long disable_service = omega arith
path_of-long drain_every_pod = omega arith
path_of-long drain_managed_pods = omega arith

module _ (itoa : ℕ → Bytes) (env : Env) (ctl : OciServiceControl) (node : Node) where
  done_message-completed : (a : Action) → done_message itoa (path_of a) ≡ completed a
  unfolding lit to_upper
  done_message-completed start_service = refl
  done_message-completed stop_service = refl
  done_message-completed restart_service = refl
  done_message-completed enable_service = refl
  done_message-completed disable_service = refl
  done_message-completed drain_every_pod = refl
  done_message-completed drain_managed_pods = refl

  -- What an operation of the table does is what its request does.
  Posts-operation :
      (a : Action) {action : M Error} (e : Error) (w w' : World)
      → operation itoa env ctl node (path_of a) ≡ some action
      → action w ≡ (ret e, w')
      → Posts env ctl node itoa a w (no_error e, w')
  unfolding lit
  Posts-operation a {action} none w w' known runs =
      let (text, world) =
        handle_oci_rest-post itoa env ctl node (lit "/service/" ++ path_of a) action none w w'
          (has_prefix-append (lit "/service/") (path_of a)) (omega (arith, path_of-long a)) known
          runs in
      (rw⁻¹ (done_message-completed a) text, world)
  Posts-operation a {action} (some m) w w' known runs =
      handle_oci_rest-post itoa env ctl node (lit "/service/" ++ path_of a) action (some m) w w'
        (has_prefix-append (lit "/service/") (path_of a)) (omega (arith, path_of-long a)) known runs

  -- A command of the service is judged by its error and its output.
  no_error-judge :
      (op text : Bytes) (excluded : List Bytes) (excused : Bytes → Bool) (w : World)
      → ((out : Bytes) → any (contains out) excluded ≡ excused out)
      → no_error (judge ctl op excluded (env.run w.events (host_command ctl text)))
        ≡ (command_effect env ctl node text excused w).0
  unfolding judge
  no_error-judge op text excluded excused w e =
      let ran = env.run w.events (host_command ctl text) in
      elim (Option-cases ran.error) [
        | inl fine ↦ rw fine refl
        | inr (m, failed) ↦ elim (Bool-cases (excused ran.output)) [
          | inl cleared ↦ rw (failed, e ran.output, cleared) refl
          | inr kept ↦ rw (failed, e ran.output, kept) refl
        ]
      ]

  any_single : (p : Bytes → Bool) (x : Bytes) → any p (x ∷ []) ≡ p x
  any_single p x = ground arith

  managed_of-filter :
      (pods : List Pod) → filter_managed env.is_managed pods ≡ managed_of env.is_managed pods
  unfolding filter_managed managed_of
  managed_of-filter [] = refl
  managed_of-filter (p ∷ pods) = rw (managed_of-filter pods) refl

  drain_chosen-effect :
      (pods : List Pod) (w : World)
      → (e : Error) × (drain_chosen env node pods w
          ≡ (ret e, (drained_effect env ctl node pods w).1))
        × (no_error e ≡ (drained_effect env ctl node pods w).0)
  unfolding drain_chosen
  drain_chosen-effect [] w = (none, refl, refl)
  drain_chosen-effect (p ∷ pods) w =
      elim (Option-cases (env.drained w.events node.node_name (p ∷ pods))) [
        | inl fine ↦ (none, rw fine refl, rw fine refl)
        | inr (m, failed) ↦
            (some (lit "Failed to drain pods: " ++ m), rw failed refl, rw failed refl)
      ]

  -- Where an action gives what its effect says, its request is answered by that.
  Posts-effect :
      (a : Action) {action : M Error} (w : World)
      → operation itoa env ctl node (path_of a) ≡ some action
      → ((e : Error) × (action w ≡ (ret e, (effect env ctl node a w).1))
          × (no_error e ≡ (effect env ctl node a w).0))
      → Posts env ctl node itoa a w (effect env ctl node a w)
  Posts-effect a w known (e, runs, succeeds) =
      let (text, world) = Posts-operation a e w (effect env ctl node a w).1 known runs in
      (rw⁻¹ succeeds text, world)

  drain-effect :
      (wanted : List Pod → List Pod) (every : Bool) (w : World)
      → ((pods : List Pod) → chosen_pods env.is_managed every pods ≡ wanted pods)
      → let r =
          drain_effect env ctl node wanted
            (env.pods w.events node.node_name)
            (log (get_pods node.node_name) w) in
        (e : Error) × (drain_px_volume_consumer_pods env node every w ≡ (ret e, r.1))
        × (no_error e ≡ r.0)
  unfolding drain_px_volume_consumer_pods
  drain-effect wanted every w chosen = found-effect (env.pods w.events node.node_name)
    where
      found-effect :
          (found : Result Bytes (List Pod))
          → let w' = log (get_pods node.node_name) w in
            (e : Error) × (drain_found env node every found w'
              ≡ (ret e, (drain_effect env ctl node wanted found w').1))
            × (no_error e ≡ (drain_effect env ctl node wanted found w').0)
      found-effect (err m) = (some (lit "Failed to get PX consumer pods: " ++ m), refl, refl)
      found-effect (ok pods) = rw (chosen pods) (drain_chosen-effect (wanted pods) _)

  -- The request of an action runs its command on the host, or drains all the pods of the node that
  -- use its volumes or those of them that a controller manages, and does nothing else. It is
  -- answered 200 with the action's name if that succeeds, and 500 otherwise; a service that cannot
  -- be stopped because it is not loaded counts as stopped, and one without a unit file as disabled.
  pub handle_oci_rest-effect :
      (a : Action) (w : World) → Posts env ctl node itoa a w (effect env ctl node a w)
  unfolding operation str_eq lit start stop restart enable disable do_op
  handle_oci_rest-effect start_service w =
      Posts-effect start_service w refl
        (_, refl, no_error-judge (lit "start") (lit "systemctl start ") [] _ w (λ out. refl))
  handle_oci_rest-effect stop_service w = Posts-effect stop_service w refl (
    _,
    refl,
    no_error-judge (lit "stop") (lit "systemctl stop ") _ _ w
        (λ out. any_single (contains out) (lit " not loaded")),
  )
  handle_oci_rest-effect restart_service w =
      Posts-effect restart_service w refl
        (_, refl, no_error-judge (lit "restart") (lit "systemctl restart ") [] _ w (λ out. refl))
  handle_oci_rest-effect enable_service w =
      Posts-effect enable_service w refl
        (_, refl, no_error-judge (lit "enable") (lit "systemctl enable ") [] _ w (λ out. refl))
  handle_oci_rest-effect disable_service w = Posts-effect disable_service w refl (
    _,
    refl,
    no_error-judge (lit "disable") (lit "systemctl disable ") _ _ w
        (λ out. any_single (contains out) (lit "No such file")),
  )
  handle_oci_rest-effect drain_every_pod w = Posts-effect drain_every_pod w refl (
      drain-effect (λ pods. pods) true w
        (λ pods. chosen_pods-filter_managed env.is_managed true pods))
  handle_oci_rest-effect drain_managed_pods w = Posts-effect drain_managed_pods w refl (
      drain-effect (managed_of env.is_managed) false w
        (λ pods. chosen_pods-filter_managed env.is_managed false pods ∙ managed_of-filter pods))
