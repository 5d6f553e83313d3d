-- ===== src/Monitor/Common.antt =====
-- Constants and file helpers of px-oci-mon/main.go.
use px_installer.Base.{Bool, not, none, some, List, [], ◌∷◌, ◌++◌, Bytes, lit}
use px_installer.World.{Error, exec, stat, Env}
use px_installer.World.Monad.{M, pure, ◌>>=◌, ask}
use px_installer.Service.{OciServiceControl}

abbrev pub host_proc_mount_dir : Bytes
host_proc_mount_dir = lit "/host_proc/1/ns/mnt"

-- `baseServiceName`, and the additional service that goes with it.
abbrev pub base_service_name : Bytes
base_service_name = lit "portworx"

abbrev pub addtl_svc_name : Bytes
addtl_svc_name = lit "portworx-reboot"

-- `fmt.Sprintf(baseServiceFileFmt, name)`
abbrev pub service_file : Bytes → Bytes
service_file name = lit "/etc/systemd/system/" ++ (name ++ lit ".service")

abbrev pub inst_k8s_dir : Bytes
inst_k8s_dir = lit "/opt/pwx/oci/inst-k8s"

abbrev pub inst_scratch_dir : Bytes
inst_scratch_dir = lit "/opt/pwx/oci/inst-scratchDir"

-- The globals `ociService` and, for each use, `svc`.
abbrev pub oci_service : OciServiceControl
oci_service = record { host_proc_mount = host_proc_mount_dir; service = base_service_name }

abbrev pub addtl_service : OciServiceControl
addtl_service = record { host_proc_mount = host_proc_mount_dir; service = addtl_svc_name }

-- `if err != nil { return err }`
abbrev pub on_ok : Error → M Error → M Error
on_ok none k = k
on_ok (some message) k = pure (some message)

abbrev pub move_error : Bytes → Bytes → Error → Error
move_error src dest none = none
move_error src dest (some message) =
    some (lit "Could not move " ++ (src ++ (lit " to " ++ (dest ++ (lit ": " ++ message)))))

abbrev pub mv : Bytes → Bytes → List Bytes
mv src dest = lit "/bin/mv" ∷ src ∷ dest ∷ []

module _ (env : Env) where
  unfoldable pub is_exist : Bytes → M Bool
  is_exist path = ask (stat path) (λ events. not (env.is_missing events path))

  unfoldable pub move_file_or_dir : Bytes → Bytes → M Error
  move_file_or_dir src dest = do
    ran ← ask (exec (mv src dest)) (λ events. env.run events (mv src dest))
    pure (move_error src dest ran.error)
