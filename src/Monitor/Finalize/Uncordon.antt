-- ===== src/Monitor/Finalize/Uncordon.antt =====
-- The node is given back at the end of an upgrade.
use px_installer.Base.{
  Bool, true, false, ◌&&◌, none, some, List, [], ◌∷◌, ◌≡◌, refl, Bytes, if◌then◌else◌, inl, inr,
  Bool-cases,
}
use px_installer.World.{Error, Env, Node, World, stat, sync, uncordon}
use px_installer.World.Monad.{M, Outcome, ret, exited, continue, log, pure}
use px_installer.World.Returns.{Returns, Total, continue-Returns}
use px_installer.Service.{reload, enable, restart, stop, run_external, do_op}
use px_installer.Kubernetes.{drain_px_volume_consumer_pods, uncordon_node}
use px_installer.Monitor.Common.{
  oci_service, addtl_service, inst_scratch_dir, on_ok, is_exist, move_file_or_dir, service_file,
  base_service_name,
}
use px_installer.Monitor.Switch.{
  Part, path, scr, oci_parts, save_part, move_part, move_parts, rollback_part, rollback,
  rollback_unless, remove_tree, reinstall, finish_switch, switch_parts, make_scratch, with_scratch,
  switch_oci_install,
}
use px_installer.Monitor.Finalize.{
  InstallStatus, sync_if, drain_if, uncordon_if, restart_service, switch_if,
  finalize_px_oci_install,
}

module _ (env : Env) where
  on_ok-Total : (e : Error) (k : M Error) → Total k → Total (on_ok e k)
  on_ok-Total none k t w = t w
  on_ok-Total (some m) k t w = tt

  move-Total : (p : Bytes) (q : Bytes) → Total (move_file_or_dir env p q)
  unfolding move_file_or_dir
  move-Total p q w = tt

  rollback_part-Total : (p : Part) → Total (rollback_part env p)
  unfolding rollback_part is_exist remove_tree move_file_or_dir
  rollback_part-Total p w = elim (Bool-cases (env.is_missing w.events (path scr p))) [
    | inl gone ↦ rw gone tt
    | inr there ↦ rw there tt
  ]

  rollback-Total : (parts : List Part) → Total (rollback env parts)
  unfolding rollback
  rollback-Total [] w = tt
  rollback-Total (p ∷ parts) w =
      continue-Returns (rollback_part env p w) _ (rollback_part-Total p w)
        (λ _. rollback-Total parts)

  finish-Total : (e : Error) → Total (finish_switch env e)
  unfolding finish_switch rollback_unless
  finish-Total none w = tt
  finish-Total (some m) w =
      continue-Returns (rollback env oci_parts w) _ (rollback-Total oci_parts w) (λ _ _. tt)

  save-Total : (p : Part) (there : Bool) → Total (save_part env p there)
  save-Total p false w = tt
  save-Total p true w = move-Total _ _ w

  move_part-Total : (p : Part) → Total (move_part env p)
  unfolding move_part is_exist
  move_part-Total p w =
      continue-Returns (save_part env p _ _) _ (save-Total p _ _)
        (λ e. on_ok-Total e _ (move-Total _ _))

  move_parts-Total : (parts : List Part) → Total (move_parts env parts)
  unfolding move_parts
  move_parts-Total [] w = tt
  move_parts-Total (p ∷ parts) w =
      continue-Returns (move_part env p w) _ (move_part-Total p w)
        (λ e. on_ok-Total e _ (move_parts-Total parts))

  reinstall-Total : Total (reinstall env)
  unfolding reinstall run_external
  reinstall-Total w = tt

  switch_parts-Total : Total (switch_parts env)
  unfolding switch_parts stop do_op run_external
  switch_parts-Total w =
      continue-Returns (move_parts env oci_parts _) _ (move_parts-Total oci_parts _) λ moved w'.
        continue-Returns (on_ok moved (reinstall env) w') _ (on_ok-Total moved _ reinstall-Total w')
          finish-Total

  with_scratch-Total : (e : Error) → Total (with_scratch env e)
  unfolding with_scratch
  with_scratch-Total none w = switch_parts-Total w
  with_scratch-Total (some m) w = tt

  make_scratch-Total : Total (make_scratch env)
  unfolding make_scratch is_exist remove_tree
  make_scratch-Total w = elim (Bool-cases (env.is_missing w.events inst_scratch_dir)) [
    | inl gone ↦ rw gone tt
    | inr there ↦ rw there tt
  ]

  switch-Total : Total (switch_oci_install env)
  unfolding switch_oci_install
  switch-Total w = continue-Returns (make_scratch env w) _ (make_scratch-Total w) with_scratch-Total

  -- The world in which the drain starts.
  abbrev pub before_drain : Bool → World → World
  before_drain pre_sync w =
      let w' = log (stat (service_file base_service_name)) w in if pre_sync then log sync w' else w'

  returned :
      {A : Type 0} (r : Outcome A × World) → Returns r → (a : A) × (w : World) × (r ≡ (ret a, w))
  returned (ret a, w) h = (a, w, refl)
  returned (exited code, w) h = absurd h

module _ (env : Env) (me_node : Node) where
  enable_if-Returns :
      (there : Bool) (w : World)
      → Returns (
          continue
            ((if there then enable env addtl_service else pure none) w)
            (λ _. restart env oci_service))
  unfolding enable restart do_op run_external
  enable_if-Returns true w = tt
  enable_if-Returns false w = tt

  restart_service-Total :
      (initial_install : Bool) → Total (restart_service env me_node initial_install)
  unfolding restart_service reload enable do_op run_external is_exist
  restart_service-Total true w = enable_if-Returns _ _
  restart_service-Total false w = enable_if-Returns _ _

  switch_if-Total : (install : Bool) → Total (switch_if env me_node install)
  unfolding switch_if
  switch_if-Total false w = tt
  switch_if-Total true w = switch-Total env w

  abbrev EndsUncordoned : Outcome Error × World → Type 0
  EndsUncordoned r = (e : Error) × (w : World) × (r ≡ (ret e, log (uncordon me_node.node_name) w))

  uncordon-last :
      (r : Outcome Error × World)
      → Returns r
      → EndsUncordoned (continue r (uncordon_if env me_node true))
  unfolding uncordon_node
  uncordon-last (ret e, w) h = (e, w, refl)
  uncordon-last (exited code, w) h = absurd h

  body-last :
      (r : Outcome Error × World) (k : M Error)
      → Returns r
      → Total k
      → EndsUncordoned (continue r (λ s w. continue (on_ok s k w) (uncordon_if env me_node true)))
  body-last (ret s, w) k h t = uncordon-last (on_ok s k w) (on_ok-Total env s k t w)
  body-last (exited code, w) k h t = absurd h

  drain_if-drained :
      (drain_all : Bool) (w w2 : World)
      → drain_px_volume_consumer_pods env me_node drain_all w ≡ (ret none, w2)
      → drain_if env me_node drain_all true w ≡ (ret true, w2)
  unfolding drain_if
  drain_if-drained drain_all w w2 e = rw e refl

  -- Once the node was drained of its pods, the upgrade ends with a value, and the last thing that
  -- it does is to uncordon the node: also where the switch fails, or the restart of the service.
  pub finalize_px_oci_install-uncordon :
      (pre_sync drain_all : Bool) (status : InstallStatus) (w w2 : World)
      → status.need_install && status.need_cordon ≡ true
      → drain_px_volume_consumer_pods env me_node drain_all (before_drain env pre_sync w)
        ≡ (ret none, w2)
      → (e : Error) × (w' : World) × (finalize_px_oci_install env me_node pre_sync drain_all status
            w
          ≡ (ret e, log (uncordon me_node.node_name) w'))
  unfolding finalize_px_oci_install is_exist sync_if
  finalize_px_oci_install-uncordon true drain_all status w w2 both drained =
      rw (both, drain_if-drained drain_all _ w2 drained)
        (body-last (switch_if env me_node status.need_install w2) _
          (switch_if-Total status.need_install w2) (restart_service-Total _))
  finalize_px_oci_install-uncordon false drain_all status w w2 both drained =
      rw (both, drain_if-drained drain_all _ w2 drained)
        (body-last (switch_if env me_node status.need_install w2) _
          (switch_if-Total status.need_install w2) (restart_service-Total _))
