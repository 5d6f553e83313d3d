-- ===== src/Monitor/Process.antt =====
-- The process of px-oci-mon once it has started: notifications of the watcher and requests to the
-- REST service, in any order. Each is dealt with before the next one.
pub mod Invariant
use px_installer.Base.{ℕ, none, some, List, [], ◌≡◌, Bytes, Option}
use mathlib.Core.List.{Perm}
use px_installer.Base.Result.{Result}
use px_installer.World.{Env, Node, World}
use px_installer.World.Monad.{ret}
use px_installer.Http.{Response}
use px_installer.Servlet.{Request, handle_oci_rest}
use px_installer.Monitor.Install.{oci_private_mounts}
use px_installer.Monitor.Args.{Settings}
use px_installer.Monitor.Common.{oci_service}
use px_installer.Monitor.Watch.{watch_node_labels}
use px_installer.Monitor.Start.{tag_or_default, start_up}

module _ (itoa : ℕ → Bytes) (env : Env) (px_tag : Bytes) (lstat : Bytes → Result Bytes ℕ)
    (s : Settings) (me_node : Node) where
  pub data Step : World → World → Type 0 where
    notified :
        (n : Node) (w w' : World)
        → watch_node_labels env s (tag_or_default px_tag) me_node n w ≡ (ret tt, w')
        → Step w w'
    requested :
        (req : Request) (r : Response) (w w' : World)
        → handle_oci_rest itoa env oci_service me_node req w ≡ (ret r, w')
        → Step w w'

  -- The worlds of a process that was started afresh and has not ended.
  pub data Reach : World → Type 0 where
    started :
        (mounts : List Bytes) (w w' : World)
        → Perm mounts oci_private_mounts
        → w.last_service_cmd ≡ []
        → start_up env px_tag lstat s mounts w ≡ (ret me_node, w')
        → Reach w'
    stepped : (w w' : World) → Reach w → Step w w' → Reach w'
