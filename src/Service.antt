-- ===== src/Service.antt =====
-- px-oci-mon/utils/service-control.go: systemctl-like control over the external OCI service.
pub mod Requests
use px_installer.Base.{
  Bool, true, false, ◌||◌, Option, none, some, List, [], ◌∷◌, ◌++◌, if◌then◌else◌, any, Bytes, lit,
  str_eq, contains,
}
use px_installer.World.{Error, Event, exec, Env, Ran, World}
use px_installer.World.Monad.{M, pure, ◌>>=◌, ◌>>◌, ask}

pub record OciServiceControl : Type 0 where
  pub host_proc_mount : Bytes
  pub service : Bytes

abbrev pub oci_dir : Bytes
oci_dir = lit "/opt/pwx/oci"

-- The argument list of `RunExternal`.
abbrev pub nsenter : OciServiceControl → Bytes → List Bytes → List Bytes
nsenter o name params =
    lit "/usr/bin/nsenter" ∷ (lit "--mount=" ++ o.host_proc_mount) ∷ lit "--" ∷ name ∷ params

-- `Could not %s '%s' service: %s`
abbrev pub op_error : OciServiceControl → Bytes → Bytes → Bytes
op_error o op message =
    lit "Could not " ++ (op ++ (lit " '" ++ (o.service ++ (lit "' service: " ++ message))))

-- The result of `do` for what its command gave.
unfoldable pub judge : OciServiceControl → Bytes → List Bytes → Ran → Error
judge o op excluded ran = elim ran.error [
  | none ↦ none
  | some message ↦ if any (contains ran.output) excluded then none else some (op_error o op message)
]

abbrev pub prefix_error : Bytes → Error → Error
prefix_error prefix none = none
prefix_error prefix (some message) = some (prefix ++ message)

-- The parameters of the shell for `systemctl op service`.
abbrev pub systemctl : OciServiceControl → Bytes → List Bytes
systemctl o op = lit "-c" ∷ (lit "systemctl " ++ (op ++ (lit " " ++ o.service))) ∷ []

module _ (env : Env) (o : OciServiceControl) where
  unfoldable pub run_external : Bytes → List Bytes → M Ran
  run_external name params =
      let args = nsenter o name params in ask (exec args) (λ events. env.run events args)

  -- `do`
  unfoldable pub do_op : Bytes → List Bytes → M Error
  unfolding run_external
  do_op op excluded = do
    ran ← run_external (lit "/bin/sh") (systemctl o op)
    pure (judge o op excluded ran)

  unfoldable pub start : M Error
  unfolding do_op
  start = do_op (lit "start") []

  unfoldable pub stop : M Error
  unfolding do_op
  stop = do_op (lit "stop") (lit " not loaded" ∷ [])

  unfoldable pub restart : M Error
  unfolding do_op
  restart = do_op (lit "restart") []

  unfoldable pub enable : M Error
  unfolding do_op
  enable = do_op (lit "enable") []

  unfoldable pub disable : M Error
  unfolding do_op
  disable = do_op (lit "disable") (lit "No such file" ∷ [])

  unfoldable pub reload : M Error
  unfolding run_external
  reload = do
    ran ← run_external (lit "/bin/sh") (lit "-c" ∷ lit "systemctl daemon-reload" ∷ [])
    pure (prefix_error (lit "Could not reload service: ") ran.error)

  -- ` grep -q ' %[1]s %[1]s ' /proc/self/mountinfo && umount %[1]s`
  abbrev pub umount_command : Bytes
  umount_command =
      lit "grep -q ' "
      ++ (oci_dir
          ++ (lit " " ++ (oci_dir ++ (lit " ' /proc/self/mountinfo && umount " ++ oci_dir))))

  abbrev pub unit_file : Bytes
  unit_file = lit "/etc/systemd/system/" ++ (o.service ++ lit ".service")

  -- The error of the unmount is only logged.
  unfoldable pub remove : M Error
  unfolding run_external
  remove = do
    run_external (lit "/bin/sh") (lit "-c" ∷ umount_command ∷ [])
    ran ← run_external (lit "/bin/rm") (lit "-fr" ∷ unit_file ∷ oci_dir ∷ [])
    pure (prefix_error (lit "Could not remove all systemd files: ") ran.error)

  unfoldable pub is_request : Bytes → Bool
  is_request op =
      str_eq op (lit "start")
      || str_eq op (lit "stop")
      || str_eq op (lit "restart")
      || str_eq op (lit "enable")
      || str_eq op (lit "disable")

  unfoldable pub handle_request : Bytes → M Error
  unfolding do_op is_request
  handle_request op =
      if is_request op then do_op op [] else pure (some (lit "Unsupported service request: " ++ op))
