-- ===== src/Monitor/Watch/Removal.antt =====
-- A label that asks for an uninstall.
use px_installer.Base.{Bool, Bytes}
use px_installer.World.{Env, Node, World, add_label}
use px_installer.World.Monad.{Outcome, ret, log}
use px_installer.World.Returns.{Returns}
use px_installer.Kubernetes.{enablement_key, label_false}
use px_installer.Monitor.Args.{Settings}

module _ (env : Env) (settings : Settings) (px_tag : Bytes) (me_node node : Node) where
  abbrev reset : World → World
  reset w = log (add_label node.node_name enablement_key label_false) w

  abbrev remember : Bool → World → Outcome (Unit {0}) × World
  remember disabled w = (ret tt, record w { last_px_disabled = disabled })
