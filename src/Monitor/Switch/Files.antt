-- ===== src/Monitor/Switch/Files.antt =====
-- What a switch relies on of the file system, and the moves of one part.
use px_installer.Base.{
  ℕ, Bool, true, false, ◌&&◌, Option, none, some, List, [], ◌∷◌, ◌≡◌, ◌⊎◌, inl, inr, refl, sym, ◌∙◌,
  arith, if◌then◌else◌, Bytes, lit, Bool-cases, Option-cases,
}
use px_installer.World.{Error, Event, exec, stat, remove_all, mkdir_all, launch_removal, Env, World}
use px_installer.World.Monad.{Outcome, ret, exited, continue, log}
use px_installer.Service.{nsenter, systemctl}
use px_installer.Monitor.Common.{
  oci_service, inst_scratch_dir, mv, on_ok, is_exist, move_file_or_dir,
}
use px_installer.Monitor.Switch.{
  px_runc, Part, bin, rootfs, config, Place, org, neo, scr, path, scratch_oci, move_part,
}

abbrev pub same_part : Part → Part → Bool
same_part bin bin = true
same_part rootfs rootfs = true
same_part config config = true
same_part _ _ = false

abbrev pub same_place : Place → Place → Bool
same_place org org = true
same_place neo neo = true
same_place scr scr = true
same_place _ _ = false

abbrev pub is_none : Option ℕ → Bool
is_none none = true
is_none (some _) = false

pub same_part_refl : (p : Part) → same_part p p ≡ true
same_part_refl bin = refl
same_part_refl rootfs = refl
same_part_refl config = refl

pub is_none-eq : (o : Option ℕ) → is_none o ≡ true → o ≡ none
is_none-eq none h = refl
is_none-eq (some x) h = cc

-- `files h a q` is the content of part `q` at place `a` after the events `h`.
abbrev pub Files : Type 0
Files = List Event → Place → Part → Option ℕ

pub record IsFileSystem (env : Env) (files : Files) : Type 0 where
  pub missing :
      (h : List Event) (a : Place) (q : Part) → env.is_missing h (path a q) ≡ is_none (files h a q)
  pub after_stat :
      (h : List Event) (p : Bytes) (a : Place) (q : Part) → files (stat p ∷ h) a q ≡ files h a q
  -- `/bin/mv` to a path with nothing there
  pub moved :
      (h : List Event) (a b : Place) (p : Part) (c : Place) (q : Part)
      → (env.run h (mv (path a p) (path b p))).error ≡ none
      → files h b p ≡ none
      → files (exec (mv (path a p) (path b p)) ∷ h) c q ≡ (
          if same_place c b && same_part q p
          then files h a p
          else if same_place c a && same_part q p
          then none
          else files h c q)
  -- a move within one file system that fails changes nothing
  pub not_moved :
      (h : List Event) (a b : Place) (p : Part) (c : Place) (q : Part) (message : Bytes)
      → (env.run h (mv (path a p) (path b p))).error ≡ some message
      → files (exec (mv (path a p) (path b p)) ∷ h) c q ≡ files h c q
  pub removed :
      (h : List Event) (p : Part) (c : Place) (q : Part)
      → env.removed h (path org p) ≡ none
      → files (remove_all (path org p) ∷ h) c q
        ≡ (if same_place c org && same_part q p then none else files h c q)
  -- the scratch directory: absent, purged or just made
  pub no_scratch :
      (h : List Event) (q : Part) → env.is_missing h inst_scratch_dir ≡ true → files h scr q ≡ none
  pub purged :
      (h : List Event) (c : Place) (q : Part)
      → env.removed h inst_scratch_dir ≡ none
      → files (remove_all inst_scratch_dir ∷ h) c q
        ≡ (if same_place c scr then none else files h c q)
  pub after_mkdir :
      (h : List Event) (a : Place) (q : Part) → files (mkdir_all scratch_oci ∷ h) a q ≡ files h a q
  -- stopping the service moves no files; the installer leaves the scratch directory alone
  pub after_stop :
      (h : List Event) (a : Place) (q : Part)
      → files
          (exec (nsenter oci_service (lit "/bin/sh") (systemctl oci_service (lit "stop"))) ∷ h)
          a
          q
        ≡ files h a q
  pub after_px_runc :
      (h : List Event) (q : Part)
      → files (exec (nsenter oci_service px_runc (lit "install" ∷ [])) ∷ h) scr q ≡ files h scr q
  -- the removal in the background has no place under /opt/pwx/bin or the OCI files
  pub after_launch :
      (h : List Event) (dirs : List Bytes) (q : Part)
      → files (launch_removal dirs ∷ h) org q ≡ files h org q

module _ {env : Env} {files : Files} (fs : IsFileSystem env files) (old : Part → Option ℕ) where
  -- The old part is in place, and nothing of it in the scratch directory.
  abbrev pub Untouched : List Event → Part → Type 0
  Untouched h q = (files h org q ≡ old q) × (files h scr q ≡ none)

  abbrev pub Saved : List Event → Part → Type 0
  Saved h q = files h scr q ≡ old q

  abbrev pub Recoverable : List Event → Part → Type 0
  Recoverable h q = Saved h q ⊎ Untouched h q

  -- After one turn of the loop the part is saved, or the turn failed and it can be recovered.
  abbrev pub Turned : Part → Outcome Error × World → Type 0
  Turned p (ret none, w) = Saved w.events p
  Turned p (ret (some m), w) = Recoverable w.events p
  Turned p (exited c, w) = ⊥

  -- The turn from the second move on, once the part is saved and its place is free.
  second-Turned :
      (p : Part) (w : World)
      → files w.events org p ≡ none
      → files w.events scr p ≡ old p
      → Turned p (move_file_or_dir env (path neo p) (path org p) w)
  unfolding move_file_or_dir
  second-Turned p w free saved =
      elim (Option-cases (env.run w.events (mv (path neo p) (path org p))).error) [
        | inl fine ↦ rw fine (fs.moved w.events neo org p scr p fine free ∙ saved)
        | inr (m, fails) ↦ rw fails (inl (fs.not_moved w.events neo org p scr p m fails ∙ saved))
      ]

  -- The turn of a part that is there, from the first move on.
  first-Turned :
      (p : Part) (w : World)
      → Untouched w.events p
      → Turned p (
          continue
            (move_file_or_dir env (path org p) (path scr p) w)
            (λ saved. on_ok saved (move_file_or_dir env (path neo p) (path org p))))
  unfolding move_file_or_dir
  first-Turned p w (in_place, fresh) =
      elim (Option-cases (env.run w.events (mv (path org p) (path scr p))).error) [
        | inl fine ↦ rw fine (
            second-Turned p (log (exec (mv (path org p) (path scr p))) w)
              (fs.moved w.events org scr p org p fine fresh ∙ rw same_part_refl refl)
              (fs.moved w.events org scr p scr p fine fresh ∙ rw same_part_refl in_place))
        | inr (m, fails) ↦ rw fails (
            inr (
              fs.not_moved w.events org scr p org p m fails ∙ in_place,
              fs.not_moved w.events org scr p scr p m fails ∙ fresh,
            ))
      ]

  pub move_part-Turned :
      (p : Part) (w : World) → Untouched w.events p → Turned p (move_part env p w)
  unfolding move_part is_exist
  move_part-Turned p w (in_place, fresh) =
      elim (Bool-cases (env.is_missing w.events (path org p))) [
        | inl gone ↦
            let free : files w.events org p ≡ none =
              is_none-eq _ (sym (fs.missing w.events org p) ∙ gone) in
            rw gone (
              second-Turned p (log (stat (path org p)) w)
                (fs.after_stat w.events (path org p) org p ∙ free)
                (fs.after_stat w.events (path org p) scr p ∙ fresh ∙ sym free ∙ in_place))
        | inr there ↦ rw there (
            first-Turned p (log (stat (path org p)) w) (
              fs.after_stat w.events (path org p) org p ∙ in_place,
              fs.after_stat w.events (path org p) scr p ∙ fresh,
            ))
      ]

  -- A turn leaves every other part as it is, at each place.
  abbrev pub Keeps : Part → List Event → {A : Type 0} → Outcome A × World → Type 0
  Keeps q h (o, w) = (a : Place) → files w.events a q ≡ files h a q

  move-Keeps :
      (a b : Place) (p q : Part) (w : World)
      → same_part q p ≡ false
      → files w.events b p ≡ none
      → Keeps q w.events (move_file_or_dir env (path a p) (path b p) w)
  unfolding move_file_or_dir
  move-Keeps a b p q w other free c =
      elim (Option-cases (env.run w.events (mv (path a p) (path b p))).error) [
        | inl fine ↦ fs.moved w.events a b p c q fine free ∙ ground arith
        | inr (m, fails) ↦ fs.not_moved w.events a b p c q m fails
      ]

  first-Keeps :
      (p q : Part) (w : World)
      → same_part q p ≡ false
      → Untouched w.events p
      → Keeps q w.events (
          continue
            (move_file_or_dir env (path org p) (path scr p) w)
            (λ saved. on_ok saved (move_file_or_dir env (path neo p) (path org p))))
  unfolding move_file_or_dir
  first-Keeps p q w other (in_place, fresh) =
      elim (Option-cases (env.run w.events (mv (path org p) (path scr p))).error) [
        | inl fine ↦
            let w2 = log (exec (mv (path org p) (path scr p))) w in
            rw fine λ a.
              move-Keeps neo org p q w2 other
                (fs.moved w.events org scr p org p fine fresh ∙ rw same_part_refl refl) a
              ∙ move-Keeps org scr p q w other fresh a
        | inr (m, fails) ↦ rw fails λ a. move-Keeps org scr p q w other fresh a
      ]

  pub move_part-Keeps :
      (p q : Part) (w : World)
      → same_part q p ≡ false
      → Untouched w.events p
      → Keeps q w.events (move_part env p w)
  unfolding move_part is_exist
  move_part-Keeps p q w other (in_place, fresh) =
      elim (Bool-cases (env.is_missing w.events (path org p))) [
        | inl gone ↦
            let free : files w.events org p ≡ none =
              is_none-eq _ (sym (fs.missing w.events org p) ∙ gone) in
            rw gone λ a.
              move-Keeps neo org p q w1 other (fs.after_stat w.events (path org p) org p ∙ free) a
              ∙ fs.after_stat w.events (path org p) a q
        | inr there ↦ rw there λ a.
            first-Keeps p q w1 other
              (
                fs.after_stat w.events (path org p) org p ∙ in_place,
                fs.after_stat w.events (path org p) scr p ∙ fresh,
              )
              a
            ∙ fs.after_stat w.events (path org p) a q
      ]
    where
      w1 : World
      w1 = log (stat (path org p)) w
