-- ===== src/Servlet/Actions.antt =====
-- What each action of the REST service should do, and how its request should be answered.
use px_installer.Base.{
  Bool, true, false, none, some, List, [], ◌∷◌, ◌++◌, ◌≡◌, ℕ, if◌then◌else◌, Bytes, lit, contains,
}
use px_installer.Base.Result.{Result, ok, err}
use px_installer.World.{Error, Env, Node, Pod, World, exec, get_pods, drain}
use px_installer.World.Monad.{log}
use px_installer.Service.{OciServiceControl}
use px_installer.Servlet.{handle_oci_rest}
use px_installer.Servlet.Answers.{answer, post_request}

-- The actions of the REST service.
pub data Action : Type 0 where
  start_service stop_service restart_service enable_service disable_service : Action
  drain_every_pod drain_managed_pods : Action

-- The last part of the path of a request.
abbrev pub path_of : Action → Bytes
path_of start_service = lit "start"
path_of stop_service = lit "stop"
path_of restart_service = lit "restart"
path_of enable_service = lit "enable"
path_of disable_service = lit "disable"
path_of drain_every_pod = lit "drain"
path_of drain_managed_pods = lit "drain-managed"

abbrev pub completed : Action → Bytes
completed start_service = lit "REST action START completed successfully\n"
completed stop_service = lit "REST action STOP completed successfully\n"
completed restart_service = lit "REST action RESTART completed successfully\n"
completed enable_service = lit "REST action ENABLE completed successfully\n"
completed disable_service = lit "REST action DISABLE completed successfully\n"
completed drain_every_pod = lit "REST action DRAIN completed successfully\n"
completed drain_managed_pods = lit "REST action DRAIN-MANAGED completed successfully\n"

-- A command of the service on the host.
abbrev pub host_command : OciServiceControl → Bytes → List Bytes
host_command ctl text =
    lit "/usr/bin/nsenter"
    ∷ (lit "--mount=" ++ ctl.host_proc_mount)
    ∷ lit "--"
    ∷ lit "/bin/sh"
    ∷ lit "-c"
    ∷ (text ++ ctl.service)
    ∷ []

-- The pods that a controller manages, in order.
unfoldable pub managed_of : (Pod → Bool) → List Pod → List Pod
managed_of p [] = []
managed_of p (pod ∷ pods) = let rest = managed_of p pods in if p pod then pod ∷ rest else rest

abbrev pub no_error : Error → Bool
no_error none = true
no_error (some m) = false

-- The status and the body for an action that succeeds or does not.
abbrev pub reply_to : Action → Bool → ℕ × Bytes
reply_to a true = (200, completed a)
reply_to a false = (500, lit "INTERNAL ERROR - please check servers logs\n")

-- Whether an action succeeds, and the state behind it.
module _ (env : Env) (ctl : OciServiceControl) (node : Node) where
  -- The failures of a command whose output has this text are excused.
  abbrev pub command_effect : Bytes → (Bytes → Bool) → World → Bool × World
  command_effect text excused w =
      let ran = env.run w.events (host_command ctl text) in
      (
        elim ran.error [ none ↦ true | some m ↦ excused ran.output ],
        log (exec (host_command ctl text)) w,
      )

  -- Nothing is drained where there is nothing to drain.
  abbrev pub drained_effect : List Pod → World → Bool × World
  drained_effect [] w = (true, w)
  drained_effect (p ∷ pods) w = (
    no_error (env.drained w.events node.node_name (p ∷ pods)),
    log (drain node.node_name (p ∷ pods)) w,
  )

  abbrev pub drain_effect : (List Pod → List Pod) → Result Bytes (List Pod) → World → Bool × World
  drain_effect wanted (err m) w = (false, w)
  drain_effect wanted (ok pods) w = drained_effect (wanted pods) w

  abbrev pub effect : Action → World → Bool × World
  effect start_service w = command_effect (lit "systemctl start ") (λ out. false) w
  effect stop_service w =
      command_effect (lit "systemctl stop ") (λ out. contains out (lit " not loaded")) w
  effect restart_service w = command_effect (lit "systemctl restart ") (λ out. false) w
  effect enable_service w = command_effect (lit "systemctl enable ") (λ out. false) w
  effect disable_service w =
      command_effect (lit "systemctl disable ") (λ out. contains out (lit "No such file")) w
  effect drain_every_pod w =
      drain_effect (λ pods. pods) (env.pods w.events node.node_name)
        (log (get_pods node.node_name) w)
  effect drain_managed_pods w =
      drain_effect (managed_of env.is_managed) (env.pods w.events node.node_name)
        (log (get_pods node.node_name) w)

  -- The request of an action is answered by its success, and leaves the state behind it.
  abbrev pub Posts : (ℕ → Bytes) → Action → World → Bool × World → Type 0
  Posts itoa a w (succeeds, w') =
      (answer (handle_oci_rest itoa env ctl node (post_request (lit "/service/" ++ path_of a)) w).0
        ≡ some (reply_to a succeeds))
      × ((handle_oci_rest itoa env ctl node (post_request (lit "/service/" ++ path_of a)) w).1 ≡ w')
