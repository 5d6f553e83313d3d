-- ===== src/Tests/Disk.antt =====
-- A disk whose files follow the events: moves and removals of the OCI parts, read from the commands.
use px_installer.Base.{
  ℕ, Bool, true, false, ◌&&◌, Option, none, some, List, [], ◌∷◌, ◌≡◌, ◌≢◌, refl, sym, ap, ◌∙◌,
  Bytes, lit, str_eq, str_eq_refl, if◌then◌else◌,
}
use px_installer.World.{Event, exec, remove_all, Env}
use px_installer.Monitor.Common.{inst_scratch_dir, mv}
use px_installer.Monitor.Switch.{Part, bin, rootfs, config, Place, org, neo, scr, path}
use px_installer.Monitor.Switch.Files.{same_part, same_place, is_none, Files, IsFileSystem}
use px_installer.Monitor.Switch.Rollback.{CanRollBack}
use px_installer.Tests.Host.{host, host_run}

abbrev spots : List (Place × Part)
spots =
    (org, bin)
    ∷ (org, rootfs)
    ∷ (org, config)
    ∷ (neo, bin)
    ∷ (neo, rootfs)
    ∷ (neo, config)
    ∷ (scr, bin)
    ∷ (scr, rootfs)
    ∷ (scr, config)
    ∷ []

abbrev find_spot : Bytes → List (Place × Part) → Option (Place × Part)
find_spot p [] = none
find_spot p ((a, q) ∷ rest) = if str_eq p (path a q) then some (a, q) else find_spot p rest

unfoldable pub spot : Bytes → Option (Place × Part)
spot p = find_spot p spots

-- The contents by place and part.
abbrev Content : Type 0
Content = Place → Part → Option ℕ

abbrev move_spot : Option (Place × Part) → Option (Place × Part) → Content → Content
move_spot (some (a, p)) (some (b, _)) f c q =
    if same_place c b && same_part q p
    then f a p
    else if same_place c a && same_part q p
    then none
    else f c q
move_spot _ _ f c q = f c q

abbrev remove_spot : Option (Place × Part) → Content → Content
remove_spot (some (a, p)) f c q = if same_place c a && same_part q p then none else f c q
remove_spot none f c q = f c q

abbrev purge : Bool → Content → Content
purge false f c q = f c q
purge true f c q = if same_place c scr then none else f c q

unfoldable pub run_command : List Bytes → Content → Content
run_command (cmd ∷ src ∷ dest ∷ []) f = move_spot (spot src) (spot dest) f
run_command _ f = f

unfoldable pub remove_path : Bytes → Content → Content
remove_path p f = purge (str_eq p inst_scratch_dir) (remove_spot (spot p) f)

abbrev first_content : Content
first_content org bin = some 1
first_content org rootfs = some 2
first_content org config = none
first_content neo bin = some 11
first_content neo rootfs = some 12
first_content neo config = some 13
first_content scr q = none

-- Only commands of three words and removals change a part.
abbrev pub disk : Files
disk [] = first_content
disk (exec args ∷ h) = run_command args (disk h)
disk (remove_all p ∷ h) = remove_path p (disk h)
disk (_ ∷ h) = disk h

abbrev gone_spot : List Event → Option (Place × Part) → Bool
gone_spot h none = false
gone_spot h (some (a, q)) = is_none (disk h a q)

abbrev pub disk_host : Env
disk_host = host (λ h p. gone_spot h (spot p))

spot-path : (a : Place) (q : Part) → spot (path a q) ≡ some (a, q)
unfolding spot path str_eq lit
spot-path org bin = refl
spot-path org rootfs = refl
spot-path org config = refl
spot-path neo bin = refl
spot-path neo rootfs = refl
spot-path neo config = refl
spot-path scr bin = refl
spot-path scr rootfs = refl
spot-path scr config = refl

pub none-ne-some : {A : Type 0} {a : A} → none ≢ some a
none-ne-some e = cc

true-ne-false : true ≢ false
true-ne-false e = cc

not_scratch : (q : Part) → str_eq (path org q) inst_scratch_dir ≡ false
unfolding path str_eq lit
not_scratch bin = refl
not_scratch rootfs = refl
not_scratch config = refl

spot_scratch : spot inst_scratch_dir ≡ none
unfolding spot path str_eq lit
spot_scratch = refl

same_scratch : str_eq inst_scratch_dir inst_scratch_dir ≡ true
same_scratch = str_eq_refl inst_scratch_dir

not_install : (a : Place) (q : Part) → str_eq (lit "install") (path a q) ≡ false
unfolding path str_eq lit
not_install org q = refl
not_install neo q = refl
not_install scr q = refl

pub mv-runs :
    (h : List Event) (a b : Place) (p : Part) → (host_run h (mv (path a p) (path b p))).error ≡ none
mv-runs h a b p = rw (not_install a p, not_install b p) (unfold str_eq lit in refl)

pub disk_lem : IsFileSystem disk_host disk
disk_lem = record {
  missing = λ h a q. rw (spot-path a q) refl;
  after_stat = λ h p a q. refl;
  moved = λ h a b p c q ok empty. unfold run_command in rw (spot-path a p, spot-path b p) refl;
  not_moved = λ h a b p c q message e. absurd (none-ne-some (sym (mv-runs h a b p) ∙ e));
  removed = λ h p c q ok. unfold remove_path in rw (not_scratch p, spot-path org p) refl;
  no_scratch = λ h q gone. absurd (true-ne-false (sym gone ∙ ap (gone_spot h) spot_scratch));
  purged = λ h c q ok. unfold remove_path in rw (same_scratch, spot_scratch) refl;
  after_mkdir = λ h a q. refl;
  after_stop = λ h a q. unfold run_command in refl;
  after_px_runc = λ h q. unfold run_command in refl;
  after_launch = λ h dirs q. refl;
}

pub disk-CanRollBack : CanRollBack disk_host
disk-CanRollBack = record { removes = λ h p. refl; moves_back = λ h p. mv-runs h scr org p }
