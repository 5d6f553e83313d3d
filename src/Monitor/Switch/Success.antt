-- ===== src/Monitor/Switch/Success.antt =====
-- A switch in which all commands succeed.
use px_installer.Base.{
  true, false, none, List, [], ◌∷◌, ◌≡◌, inl, inr, refl, sym, ◌∙◌, subst, arith, Bool-cases,
  if◌then◌else◌, Bytes, lit,
}
use px_installer.World.{Error, Event, exec, stat, remove_all, mkdir_all, launch_removal, Env, World}
use px_installer.World.Monad.{Outcome, ret, log}
use px_installer.Service.{nsenter, systemctl, stop, run_external, do_op}
use px_installer.Monitor.Common.{
  mv, is_exist, move_file_or_dir, oci_service, inst_scratch_dir, inst_k8s_dir,
}
use px_installer.Monitor.Switch.{
  Part, Place, org, neo, scr, path, remove_tree, move_part, move_parts, oci_parts, make_scratch,
  scratch_oci, with_scratch, switch_parts, switch_oci_install, reinstall, finish_switch,
  rollback_unless, px_runc,
}
use px_installer.Monitor.Switch.Files.{
  Files, IsFileSystem, same_part, same_part_refl, is_none-eq, move_part-Keeps,
}
use px_installer.Monitor.Switch.Rollback.{member, Distinct, same_part-eq}
use px_installer.Monitor.Switch.Atomic.{oci_parts-Distinct, member-oci_parts}

-- Every command succeeds, and the scratch directory can be purged and made.
pub record AllSucceeds (env : Env) : Type 0 where
  pub runs : (h : List Event) (args : List Bytes) → (env.run h args).error ≡ none
  pub purges : (h : List Event) → env.removed h inst_scratch_dir ≡ none
  pub makes : (h : List Event) → env.made h scratch_oci ≡ none

module _ {env : Env} {files : Files} (fs : IsFileSystem env files) (good : AllSucceeds env) where
  -- A turn puts the new part in place.
  abbrev Placed : Part → World → Type 0
  Placed p w =
      (w' : World) × (move_part env p w ≡ (ret none, w'))
      × (files w'.events org p ≡ files w.events neo p)

  move_part-Placed : (p : Part) (w : World) → files w.events scr p ≡ none → Placed p w
  unfolding move_part is_exist move_file_or_dir
  move_part-Placed p w fresh = elim (Bool-cases (env.is_missing w.events (path org p))) [
    | inl gone ↦ (
      log (exec (mv (path neo p) (path org p))) w1,
      rw (gone, good.runs w1.events (mv (path neo p) (path org p))) refl,
      fs.moved w1.events neo org p org p (good.runs w1.events _) (
            fs.after_stat w.events (path org p) org p
            ∙ is_none-eq _ (sym (fs.missing w.events org p) ∙ gone))
          ∙ rw same_part_refl (fs.after_stat w.events (path org p) neo p),
    )
    | inr there ↦ (
      log (exec (mv (path neo p) (path org p))) w2,
      rw
          (
            there,
            good.runs w1.events (mv (path org p) (path scr p)),
            good.runs w2.events (mv (path neo p) (path org p)),
          )
          refl,
      fs.moved w2.events neo org p org p (good.runs w2.events _) (
            fs.moved w1.events org scr p org p (good.runs w1.events _) empty
            ∙ rw same_part_refl refl)
          ∙ rw same_part_refl (
              fs.moved w1.events org scr p neo p (good.runs w1.events _) empty
              ∙ fs.after_stat w.events (path org p) neo p),
    )
  ]
    where
      w1 : World
      w1 = log (stat (path org p)) w

      w2 : World
      w2 = log (exec (mv (path org p) (path scr p))) w1

      empty : files w1.events scr p ≡ none
      empty = fs.after_stat w.events (path org p) scr p ∙ fresh

  abbrev AllPlaced : List Part → World → Type 0
  AllPlaced parts w =
      (w' : World) × (move_parts env parts w ≡ (ret none, w'))
      × ((q : Part)
          → files w'.events org q
            ≡ (if member q parts then files w.events neo q else files w.events org q))

  others :
      (p : Part) (w w1 : World)
      → files w.events scr p ≡ none
      → move_part env p w ≡ (ret none, w1)
      → (q : Part) → same_part q p ≡ false
      → (a : Place) → files w1.events a q ≡ files w.events a q
  others p w w1 fresh e q other a =
      subst (λ r. files (World.events r.1) a q ≡ files w.events a q) e
        (move_part-Keeps fs (files w.events org) p q w other (refl, fresh) a)

  fresh-turn :
      (p : Part) (parts : List Part) (w w1 : World)
      → member p parts ≡ false
      → ((q : Part) → member q (p ∷ parts) ≡ true → files w.events scr q ≡ none)
      → ((q : Part)
          → same_part q p ≡ false
          → (a : Place) → files w1.events a q ≡ files w.events a q)
      → (q : Part) → member q parts ≡ true
      → files w1.events scr q ≡ none
  fresh-turn p parts w w1 once fresh keep q m = elim (Bool-cases (same_part q p)) [
    | inl same ↦ let e : q ≡ p = same_part-eq q p same in absurd (ground arith)
    | inr other ↦ keep q other scr ∙ fresh q (rw (other, m) refl)
  ]

  AllPlaced-turn :
      (p : Part) (parts : List Part) (w w1 : World)
      → member p parts ≡ false
      → move_part env p w ≡ (ret none, w1)
      → files w1.events org p ≡ files w.events neo p
      → ((q : Part)
          → same_part q p ≡ false
          → (a : Place) → files w1.events a q ≡ files w.events a q)
      → AllPlaced parts w1
      → AllPlaced (p ∷ parts) w
  unfolding move_parts
  AllPlaced-turn p parts w w1 once e1 placed keep (w', e, rest) = (
    w',
    rw e1 e,
    λ q. elim (Bool-cases (same_part q p)) [
      | inl same ↦
          let eq : q ≡ p = same_part-eq q p same in
          rw (eq, same_part_refl p) (rest p ∙ rw once placed)
      | inr other ↦ rw other (rest q ∙ rw (keep q other neo, keep q other org) refl)
    ],
  )

  move_parts-AllPlaced :
      (parts : List Part) (w : World)
      → Distinct parts
      → ((q : Part) → member q parts ≡ true → files w.events scr q ≡ none)
      → AllPlaced parts w
  move_parts-AllPlaced [] w d fresh = unfold move_parts in (w, refl, λ q. refl)
  move_parts-AllPlaced (p ∷ parts) w (once, d) fresh =
      let p_fresh : files w.events scr p ≡ none = fresh p (rw (same_part_refl p) refl) in
      let (w1, e1, placed) = move_part-Placed p w p_fresh in
      let keep = others p w w1 p_fresh e1 in
      AllPlaced-turn p parts w w1 once e1 placed keep
        (move_parts-AllPlaced parts w1 d (fresh-turn p parts w w1 once fresh keep))

  abbrev pub install_args : List Bytes
  install_args = nsenter oci_service px_runc (lit "install" ∷ [])

  -- A fresh scratch directory, with the other places as they were.
  abbrev Made : World → Type 0
  Made w =
      (w1 : World) × (make_scratch env w ≡ (ret none, w1))
      × ((q : Part)
          → (files w1.events scr q ≡ none)
            × (files w1.events org q ≡ files w.events org q)
            × (files w1.events neo q ≡ files w.events neo q))

  make_scratch-Made : (w : World) → Made w
  unfolding make_scratch is_exist remove_tree
  make_scratch-Made w = elim (Bool-cases (env.is_missing w.events inst_scratch_dir)) [
    | inl gone ↦ (
      log (mkdir_all scratch_oci) w1,
      rw (gone, good.makes w1.events) refl,
      λ q. (
        fs.after_mkdir w1.events scr q
            ∙ fs.after_stat w.events inst_scratch_dir scr q
            ∙ fs.no_scratch w.events q gone,
        fs.after_mkdir w1.events org q ∙ fs.after_stat w.events inst_scratch_dir org q,
        fs.after_mkdir w1.events neo q ∙ fs.after_stat w.events inst_scratch_dir neo q,
      ),
    )
    | inr there ↦ (
      log (mkdir_all scratch_oci) w2,
      rw (there, good.makes w2.events) refl,
      λ q. (
        fs.after_mkdir w2.events scr q ∙ fs.purged w1.events scr q (good.purges w1.events),
        fs.after_mkdir w2.events org q
            ∙ fs.purged w1.events org q (good.purges w1.events)
            ∙ fs.after_stat w.events inst_scratch_dir org q,
        fs.after_mkdir w2.events neo q
            ∙ fs.purged w1.events neo q (good.purges w1.events)
            ∙ fs.after_stat w.events inst_scratch_dir neo q,
      ),
    )
  ]
    where
      w1 : World
      w1 = log (stat inst_scratch_dir) w

      w2 : World
      w2 = log (remove_all inst_scratch_dir) w1

  abbrev pub Switched : World → Outcome Error × World → Type 0
  Switched w r =
      (w' : World) × (r ≡ (
        ret none,
        log (launch_removal (inst_k8s_dir ∷ inst_scratch_dir ∷ [])) (log (exec install_args) w'),
      ))
      × ((q : Part) → files w'.events org q ≡ files w.events neo q)

  switch_parts-Switched :
      (w : World) → ((q : Part) → files w.events scr q ≡ none) → Switched w (switch_parts env w)
  unfolding switch_parts stop do_op run_external reinstall finish_switch rollback_unless
  switch_parts-Switched w fresh =
      let (w', e, placed) =
        move_parts-AllPlaced oci_parts stopped oci_parts-Distinct
          (λ q _. fs.after_stop w.events scr q ∙ fresh q) in
      (
        w',
        rw (e, good.runs w'.events install_args) refl,
        λ q. placed q ∙ rw (member-oci_parts q) (fs.after_stop w.events neo q),
      )
    where
      stopped : World
      stopped =
          log (exec (nsenter oci_service (lit "/bin/sh") (systemctl oci_service (lit "stop")))) w

  -- If every command succeeds and the scratch directory can be purged and made, the switch returns
  -- no error. Its last command is the installer, by which time each new part stands in /opt/pwx,
  -- and behind it the removal of the two directories that it worked in is launched.
  pub switch_oci_install-Switched : (w : World) → Switched w (switch_oci_install env w)
  unfolding switch_oci_install with_scratch
  switch_oci_install-Switched w =
      let (w1, e, made) = make_scratch-Made w in
      let (w', e', placed) = switch_parts-Switched w1 (λ q. (made q).0) in
      (w', rw e e', λ q. placed q ∙ (made q).2)
