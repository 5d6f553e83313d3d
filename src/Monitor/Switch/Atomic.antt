-- ===== src/Monitor/Switch/Atomic.antt =====
-- `switchOciInstall` as a whole: it installs, or it puts back what was there.
use px_installer.Base.{
  ℕ, true, Option, none, some, List, [], ◌∷◌, ◌≡◌, refl, ◌∙◌, arith, Bytes, lit, Bool-cases,
  Option-cases, inl, inr,
}
use px_installer.World.{Error, Event, exec, stat, remove_all, launch_removal, Env, World}
use px_installer.World.Monad.{Outcome, ret, exited, continue, log}
use px_installer.Service.{nsenter, systemctl, stop, run_external}
use px_installer.Monitor.Common.{oci_service, inst_scratch_dir, inst_k8s_dir, on_ok, is_exist}
use px_installer.Monitor.Switch.{
  px_runc, Part, bin, rootfs, config, org, scr, oci_parts, remove_tree, move_parts, reinstall,
  rollback, rollback_unless, finish_switch, switch_parts, make_scratch, with_scratch,
  switch_oci_install,
}
use px_installer.Monitor.Switch.Files.{Files, IsFileSystem, Saved, Recoverable, Untouched}
use px_installer.Monitor.Switch.Rollback.{
  member, Distinct, CanRollBack, Finished, move_parts-Finished, rollback-AllRestored, AllRestored,
}

pub oci_parts-Distinct : Distinct oci_parts
oci_parts-Distinct = (refl, (refl, (refl, tt)))

pub member-oci_parts : (q : Part) → member q oci_parts ≡ true
member-oci_parts bin = refl
member-oci_parts rootfs = refl
member-oci_parts config = refl

-- An error leaves every part that was there in its place, and the process does not end.
abbrev pub KeepsOld : Files → (Part → Option ℕ) → Outcome Error × World → Type 0
KeepsOld files old (ret none, w) = Unit
KeepsOld files old (ret (some m), w) =
    (q : Part) (x : ℕ) → old q ≡ some x → files w.events org q ≡ some x
KeepsOld files old (exited c, w) = ⊥

module _ {env : Env} {files : Files} (fs : IsFileSystem env files) (old : Part → Option ℕ)
    (can : CanRollBack env) where
  launch-KeepsOld :
      (m : Bytes) (r : Outcome (Unit {0}) × World)
      → AllRestored fs old can r
      → KeepsOld files old (
          continue r
            (λ _ w. (ret (some m), log (launch_removal (inst_k8s_dir ∷ inst_scratch_dir ∷ [])) w)))
  launch-KeepsOld m (ret u, w) all =
      λ q x e. fs.after_launch w.events (inst_k8s_dir ∷ inst_scratch_dir ∷ []) q ∙ all q x e
  launch-KeepsOld m (exited c, w) all = absurd all

  finish_switch-KeepsOld :
      (m : Bytes) (w : World)
      → ((q : Part) → Recoverable fs old w.events q)
      → KeepsOld files old (finish_switch env (some m) w)
  unfolding finish_switch rollback_unless
  finish_switch-KeepsOld m w all = launch-KeepsOld m (rollback env oci_parts w) (
      rollback-AllRestored fs old can oci_parts w oci_parts-Distinct
        (λ q. (λ _. all q, λ other. absurd (ground (arith, member-oci_parts q)))))

  installed-KeepsOld :
      (w : World)
      → ((q : Part) → Saved fs old w.events q)
      → KeepsOld files old (continue (reinstall env w) (λ e. finish_switch env e))
  unfolding reinstall run_external
  installed-KeepsOld w f =
      elim (Option-cases
        (env.run w.events (nsenter oci_service px_runc (lit "install" ∷ []))).error) [
          | inl fine ↦ rw fine (unfold finish_switch rollback_unless in tt)
          | inr (m, fails) ↦
              rw fails (finish_switch-KeepsOld _ _ (λ q. inl (fs.after_px_runc w.events q ∙ f q)))
        ]

  reinstall-KeepsOld :
      (r : Outcome Error × World)
      → Finished fs old r
      → KeepsOld files old (
          continue r
            (λ moved w. continue (on_ok moved (reinstall env) w) (λ e. finish_switch env e)))
  reinstall-KeepsOld (exited c, w) f = absurd f
  reinstall-KeepsOld (ret (some m), w) f = finish_switch-KeepsOld m w f
  reinstall-KeepsOld (ret none, w) f = installed-KeepsOld w f

  switch_parts-KeepsOld :
      (w : World)
      → ((q : Part) → Untouched fs old w.events q)
      → KeepsOld files old (switch_parts env w)
  unfolding switch_parts stop
  switch_parts-KeepsOld w u = reinstall-KeepsOld (move_parts env oci_parts stopped) (
      move_parts-Finished fs old oci_parts stopped oci_parts-Distinct (λ q. (
        λ _. (fs.after_stop w.events org q ∙ (u q).0, fs.after_stop w.events scr q ∙ (u q).1),
        λ other. absurd (ground (arith, member-oci_parts q)),
      )))
    where
      stopped : World
      stopped =
          log (exec (nsenter oci_service (lit "/bin/sh") (systemctl oci_service (lit "stop")))) w

-- The scratch directory after `make_scratch`.
module _ {env : Env} {files : Files} (fs : IsFileSystem env files) where
  abbrev Fresh : World → Outcome Error × World → Type 0
  Fresh w (ret e, w') =
      (q : Part) → (files w'.events org q ≡ files w.events org q) × (files w'.events scr q ≡ none)
  Fresh w (exited c, w') = ⊥

  make_scratch-Fresh :
      (w : World)
      → ((h : List Event) → env.removed h inst_scratch_dir ≡ none)
      → Fresh w (make_scratch env w)
  unfolding make_scratch is_exist remove_tree
  make_scratch-Fresh w purges = elim (Bool-cases (env.is_missing w.events inst_scratch_dir)) [
    | inl gone ↦ rw gone λ q. (
      fs.after_mkdir h1 org q ∙ fs.after_stat w.events inst_scratch_dir org q,
      fs.after_mkdir h1 scr q
          ∙ fs.after_stat w.events inst_scratch_dir scr q
          ∙ fs.no_scratch w.events q gone,
    )
    | inr there ↦ rw there λ q. (
      fs.after_mkdir h2 org q
          ∙ fs.purged h1 org q (purges h1)
          ∙ fs.after_stat w.events inst_scratch_dir org q,
      fs.after_mkdir h2 scr q ∙ fs.purged h1 scr q (purges h1),
    )
  ]
    where
      h1 : List Event
      h1 = stat inst_scratch_dir ∷ w.events

      h2 : List Event
      h2 = remove_all inst_scratch_dir ∷ h1

  switch-KeepsOld :
      (w : World) (r : Outcome Error × World)
      → CanRollBack env
      → Fresh w r
      → KeepsOld files (files w.events org) (continue r (with_scratch env))
  unfolding with_scratch
  switch-KeepsOld w (ret none, w') can f = switch_parts-KeepsOld fs (files w.events org) can w' f
  switch-KeepsOld w (ret (some m), w') can f = λ q x e. (f q).0 ∙ e
  switch-KeepsOld w (exited c, w') can f = absurd f

  -- If the file system moves and removes as documented, the scratch directory can be purged and
  -- the rollback's own steps succeed, then a switch that returns an error leaves every part that
  -- was in /opt/pwx there with its old content, wherever the switch failed.
  pub switch_oci_install-KeepsOld :
      (w : World)
      → CanRollBack env
      → ((h : List Event) → env.removed h inst_scratch_dir ≡ none)
      → KeepsOld files (files w.events org) (switch_oci_install env w)
  unfolding switch_oci_install
  switch_oci_install-KeepsOld w can purges =
      switch-KeepsOld w (make_scratch env w) can (make_scratch-Fresh w purges)
