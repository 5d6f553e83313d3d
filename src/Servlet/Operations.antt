-- ===== src/Servlet/Operations.antt =====
-- Properties of the operations of a POST, by cases.
use px_installer.Base.{ℕ, Bool, true, false, Option, none, some, Bytes, lit, str_eq, if◌then◌else◌}
use px_installer.World.{Error, Env, Node}
use px_installer.World.Monad.{M}
use px_installer.Service.{OciServiceControl, start, stop, restart, enable, disable}
use px_installer.Kubernetes.{drain_px_volume_consumer_pods}
use px_installer.Servlet.{operation}

module _ (holds : Option (M Error) → Type 0) where
  either : (b : Bool) (x y : Option (M Error)) → holds x → holds y → holds (if b then x else y)
  either true x y k l = k
  either false x y k l = l

  pub operation-All :
      (itoa : ℕ → Bytes) (env : Env) (ctl : OciServiceControl) (n : Node) (op : Bytes)
      → holds (some (start env ctl))
      → holds (some (stop env ctl))
      → holds (some (restart env ctl))
      → holds (some (enable env ctl))
      → holds (some (disable env ctl))
      → ((all : Bool) → holds (some (drain_px_volume_consumer_pods env n all)))
      → holds none
      → holds (operation itoa env ctl n op)
  unfolding operation
  operation-All itoa env ctl n op h1 h2 h3 h4 h5 drains other =
      either (str_eq op (lit "start")) _ _ h1 (
        either (str_eq op (lit "stop")) _ _ h2 (
          either (str_eq op (lit "restart")) _ _ h3 (
            either (str_eq op (lit "enable")) _ _ h4 (
              either (str_eq op (lit "disable")) _ _ h5 (
                either (str_eq op (lit "drain")) _ _ (drains true)
                  (either (str_eq op (lit "drain-managed")) _ _ (drains false) other))))))
