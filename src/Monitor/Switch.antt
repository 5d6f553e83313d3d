-- ===== src/Monitor/Switch.antt =====
-- `switchOciInstall` of px-oci-mon/main.go: the new OCI files take the place of the old ones.
pub mod Files
pub mod Rollback
pub mod Atomic
pub mod Success
use px_installer.Base.{
  Bool, true, false, Option, none, some, List, [], ◌∷◌, ◌++◌, Bytes, lit, if◌then◌else◌,
}
use px_installer.World.{Error, Env, World, Ran, remove_all, mkdir_all, launch_removal}
use px_installer.World.Monad.{M, pure, ◌>>=◌, ◌>>◌, ask}
use px_installer.Service.{stop, run_external}
use px_installer.Monitor.Common.{
  oci_service, inst_k8s_dir, inst_scratch_dir, on_ok, is_exist, move_file_or_dir,
}

-- `strings.Fields("bin oci/rootfs oci/config.json")`
pub data Part : Type 0 where
  bin rootfs config : Part

abbrev pub part_name : Part → Bytes
part_name bin = lit "bin"
part_name rootfs = lit "oci/rootfs"
part_name config = lit "oci/config.json"

abbrev pub oci_parts : List Part
oci_parts = bin ∷ rootfs ∷ config ∷ []

-- Where a part can be: `org`, `neo` and `scr` of the source.
pub data Place : Type 0 where
  org neo scr : Place

abbrev pub directory : Place → Bytes
directory org = lit "/opt/pwx"
directory neo = inst_k8s_dir
directory scr = inst_scratch_dir

-- `path.Join(dir, p)`, which has nothing to clean for these.
unfoldable pub path : Place → Part → Bytes
path a p = directory a ++ (lit "/" ++ part_name p)

-- `path.Join(instScratchDir, "oci")`
abbrev pub scratch_oci : Bytes
scratch_oci = inst_scratch_dir ++ lit "/oci"

abbrev pub run_error : Error → Error
run_error none = none
run_error (some message) = some (lit "Could not run `px-runc install`: " ++ message)

abbrev pub scratch_error : Bytes → Bytes
scratch_error message = lit "Could not create " ++ (inst_scratch_dir ++ (lit ": " ++ message))

abbrev pub px_runc : Bytes
px_runc = lit "/opt/pwx/bin/px-runc"

module _ (env : Env) where
  unfoldable pub remove_tree : Bytes → M Error
  remove_tree path = ask (remove_all path) (λ events. env.removed events path)

  -- One turn of the deferred rollback. An error is logged, and the next part is tried.
  unfoldable pub rollback_part : Part → M Error
  rollback_part p = do
    moved ← is_exist env (path scr p)
    (if moved
        then (do remove_tree (path org p); move_file_or_dir env (path scr p) (path org p))
        else pure none)

  unfoldable pub rollback : List Part → M (Unit {0})
  rollback [] = pure tt
  rollback (p ∷ parts) = do rollback_part p; rollback parts

  unfoldable pub rollback_unless : Error → M (Unit {0})
  rollback_unless none = pure tt
  rollback_unless (some message) = rollback oci_parts

  abbrev pub save_part : Part → Bool → M Error
  save_part p false = pure none
  save_part p true = move_file_or_dir env (path org p) (path scr p)

  -- One turn of the loop: the old part to the scratch directory, the new one to its place.
  unfoldable pub move_part : Part → M Error
  move_part p = do
    there ← is_exist env (path org p)
    saved ← save_part p there
    on_ok saved (move_file_or_dir env (path neo p) (path org p))

  unfoldable pub move_parts : List Part → M Error
  move_parts [] = pure none
  move_parts (p ∷ parts) = do e ← move_part p; on_ok e (move_parts parts)

  unfoldable pub reinstall : M Error
  reinstall = do
    ran ← run_external env oci_service px_runc (lit "install" ∷ [])
    pure (run_error ran.error)

  -- The deferred function: rollback unless all went well, then the removal in the background.
  unfoldable pub finish_switch : Error → M Error
  finish_switch e = do
    rollback_unless e
    ask (launch_removal (inst_k8s_dir ∷ inst_scratch_dir ∷ [])) (λ _. e)

  -- From the stop of the service on.
  unfoldable pub switch_parts : M Error
  switch_parts = do
    stop env oci_service
    moved ← move_parts oci_parts
    e ← on_ok moved reinstall
    finish_switch e

  unfoldable pub make_scratch : M Error
  make_scratch = do
    there ← is_exist env inst_scratch_dir
    (if there then remove_tree inst_scratch_dir else pure none)
    ask (mkdir_all scratch_oci) (λ events. env.made events scratch_oci)

  unfoldable pub with_scratch : Error → M Error
  with_scratch (some message) = pure (some (scratch_error message))
  with_scratch none = switch_parts

  unfoldable pub switch_oci_install : M Error
  switch_oci_install = do made ← make_scratch; with_scratch made
