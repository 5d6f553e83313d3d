-- ===== src/Monitor/Install/Decision.antt =====
-- When an install is needed.
use px_installer.Base.{Bool, false, not, Option, some, ◌∷◌, ◌≡◌, if◌then◌else◌, Bytes, lit, str_eq}
use px_installer.World.{Env, World, InstallState, finished, inspect_image}
use px_installer.World.Monad.{Outcome, ret, exited}
use px_installer.Inspect.{SimpleContainerConfig, parsed_env}
use px_installer.Monitor.Install.{long_id, px_image_id_key}

abbrev pub config_json : Bytes
config_json = lit "/opt/pwx/oci/config.json"

-- Both IDs are known, and they are the same.
abbrev pub same_ids : Option Bytes → Option Bytes → Bool
same_ids (some pulled) (some installed) = str_eq pulled installed
same_ids _ _ = false

module _ (env : Env) (image : Bytes) where
  -- The IDs as they are read: the pulled one first, the installed one if that one is known.
  abbrev pub pulled_id : World → Option Bytes
  pulled_id w = long_id (env.image_id w.events image)

  abbrev pub installed_id : World → Option Bytes
  installed_id w =
      long_id
        (parsed_env env px_image_id_key (env.contents (inspect_image image ∷ w.events) config_json))

  abbrev pub Decides : Bool → InstallState → Outcome (Bool × SimpleContainerConfig) × World → Type 0
  Decides same before (ret (need, cfg), w) =
      (need ≡ not same) × (w.state ≡ (if same then finished else before))
  Decides same before (exited code, w) = ⊥
