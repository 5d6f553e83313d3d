-- ===== src/Monitor/Switch/Rollback.antt =====
-- A switch that fails loses no old part.
use px_installer.Base.{
  ℕ, Bool, true, false, ◌||◌, Option, none, some, List, [], ◌∷◌, ◌≡◌, inl, inr, refl, sym, ◌∙◌,
  arith, Bool-cases,
}
use px_installer.World.{Error, Event, exec, stat, remove_all, Env, World}
use px_installer.World.Monad.{Outcome, ret, exited, continue}
use px_installer.Monitor.Common.{mv, on_ok, is_exist, move_file_or_dir}
use px_installer.Monitor.Switch.{
  Part, bin, rootfs, config, Place, org, scr, path, remove_tree, move_part, move_parts,
  rollback_part, rollback,
}
use px_installer.Monitor.Switch.Files.{
  Files, IsFileSystem, same_part, same_part_refl, is_none, is_none-eq, Untouched, Saved,
  Recoverable, Turned, move_part-Turned, Keeps, move_part-Keeps,
}

abbrev pub member : Part → List Part → Bool
member q [] = false
member q (p ∷ parts) = same_part q p || member q parts

abbrev pub Distinct : List Part → Type 0
Distinct [] = Unit
Distinct (p ∷ parts) = (member p parts ≡ false) × Distinct parts

pub same_part-eq : (q p : Part) → same_part q p ≡ true → q ≡ p
same_part-eq bin p h = ground arith
same_part-eq rootfs p h = ground arith
same_part-eq config p h = ground arith

-- Removing a part and moving one back from the scratch directory never fail.
pub record CanRollBack (env : Env) : Type 0 where
  pub removes : (h : List Event) (p : Part) → env.removed h (path org p) ≡ none
  pub moves_back :
      (h : List Event) (p : Part) → (env.run h (mv (path scr p) (path org p))).error ≡ none

module _ {env : Env} {files : Files} (fs : IsFileSystem env files) (old : Part → Option ℕ) where
  -- The parts still to do are untouched, and the others saved.
  abbrev Progress : List Part → List Event → Type 0
  Progress parts h =
      (q : Part)
      → (member q parts ≡ true → Untouched fs old h q) × (member q parts ≡ false → Saved fs old h q)

  abbrev pub Finished : Outcome Error × World → Type 0
  Finished (ret none, w) = (q : Part) → Saved fs old w.events q
  Finished (ret (some m), w) = (q : Part) → Recoverable fs old w.events q
  Finished (exited c, w) = ⊥

  abbrev Others : Part → List Event → Outcome Error × World → Type 0
  Others p h r = (q : Part) → same_part q p ≡ false → Keeps fs old q h r

  -- What holds of a part that the turn of another part left alone.
  Saved-keep :
      (q : Part) (h h' : List Event)
      → ((a : Place) → files h' a q ≡ files h a q)
      → Saved fs old h q
      → Saved fs old h' q
  Saved-keep q h h' k s = k scr ∙ s

  Untouched-keep :
      (q : Part) (h h' : List Event)
      → ((a : Place) → files h' a q ≡ files h a q)
      → Untouched fs old h q
      → Untouched fs old h' q
  Untouched-keep q h h' k (i, f) = (k org ∙ i, k scr ∙ f)

  Recoverable-keep :
      (parts : List Part) (q : Part) (h h' : List Event)
      → ((a : Place) → files h' a q ≡ files h a q)
      → (member q parts ≡ true → Untouched fs old h q) × (member q parts ≡ false → Saved fs old h q)
      → Recoverable fs old h' q
  Recoverable-keep parts q h h' k (u, s) = elim (Bool-cases (member q parts)) [
    | inl m ↦ inr (Untouched-keep q h h' k (u m))
    | inr m ↦ inl (Saved-keep q h h' k (s m))
  ]

  turn-Progress :
      (p : Part) (parts : List Part) (h : List Event) (w : World)
      → member p parts ≡ false
      → Progress (p ∷ parts) h
      → Saved fs old w.events p
      → Others p h (ret none, w)
      → Progress parts w.events
  turn-Progress p parts h w once progress saved others q = elim (Bool-cases (same_part q p)) [
    | inl same ↦
        let e : q ≡ p = same_part-eq q p same in (λ m. absurd (ground arith), λ m. rw e saved)
    | inr other ↦ (
      λ m. Untouched-keep q h w.events (others q other) ((progress q).0 (rw (other, m))),
      λ m. Saved-keep q h w.events (others q other) ((progress q).1 (rw (other, m))),
    )
  ]

  turn-Finished :
      (p : Part) (parts : List Part) (h : List Event) (r : Outcome Error × World)
      → member p parts ≡ false
      → Progress (p ∷ parts) h
      → Turned fs old p r
      → Others p h r
      → ((w : World) → Progress parts w.events → Finished (move_parts env parts w))
      → Finished (continue r (λ e. on_ok e (move_parts env parts)))
  turn-Finished p parts h (ret none, w) once progress t others rest =
      rest w (turn-Progress p parts h w once progress t others)
  turn-Finished p parts h (ret (some m), w) once progress t others rest = λ q.
      elim (Bool-cases (same_part q p)) [
        | inl same ↦ rw (same_part-eq q p same) t
        | inr other ↦ Recoverable-keep (p ∷ parts) q h w.events (others q other) (progress q)
      ]
  turn-Finished p parts h (exited c, w) once progress t others rest = absurd t

  -- The loop saves every part, or fails and every part can be recovered.
  pub move_parts-Finished :
      (parts : List Part) (w : World)
      → Distinct parts
      → Progress parts w.events
      → Finished (move_parts env parts w)
  unfolding move_parts
  move_parts-Finished [] w d progress = λ q. (progress q).1 refl
  move_parts-Finished (p ∷ parts) w (once, d) progress =
      let u : Untouched fs old w.events p = (progress p).0 (rw (same_part_refl p)) in
      turn-Finished p parts w.events (move_part env p w) once progress
        (move_part-Turned fs old p w u) (λ q other. move_part-Keeps fs old p q w other u)
        (λ w' progress'. move_parts-Finished parts w' d progress')

  -- What there was of the part is in its place.
  abbrev pub Restored : List Event → Part → Type 0
  Restored h q = (x : ℕ) → old q ≡ some x → files h org q ≡ some x

  abbrev RolledBack : Part → List Event → Outcome Error × World → Type 0
  RolledBack p h (ret e, w) = Restored w.events p × Others p h (ret e, w)
  RolledBack p h (exited c, w) = ⊥

  Recoverable-gone :
      (h : List Event) (p : Part) → files h scr p ≡ none → Recoverable fs old h p → Restored h p
  Recoverable-gone h p gone (inl saved) x e = cc
  Recoverable-gone h p gone (inr (in_place, fresh)) x e = in_place ∙ e

  Recoverable-there :
      (h : List Event) (p : Part)
      → is_none (files h scr p) ≡ false
      → Recoverable fs old h p
      → files h scr p ≡ old p
  Recoverable-there h p there (inl saved) = saved
  Recoverable-there h p there (inr (in_place, fresh)) = ground arith

  module _ (can : CanRollBack env) where
    -- The two steps that put a part back.
    put_back :
        (p : Part) (h : List Event)
        → let h2 = remove_all (path org p) ∷ h in
          let h3 = exec (mv (path scr p) (path org p)) ∷ h2 in
          (files h3 org p ≡ files h scr p)
          × ((q : Part) → same_part q p ≡ false → (a : Place) → files h3 a q ≡ files h a q)
    put_back p h = (
      fs.moved h2 scr org p org p (can.moves_back h2 p) free
          ∙ rw same_part_refl (fs.removed h p scr p (can.removes h p)),
      λ q other a.
          fs.moved h2 scr org p a q (can.moves_back h2 p) free
          ∙ ground (arith, fs.removed h p a q (can.removes h p)),
    )
      where
        h2 : List Event
        h2 = remove_all (path org p) ∷ h

        free : files h2 org p ≡ none
        free = fs.removed h p org p (can.removes h p) ∙ rw same_part_refl refl

    rollback_part-RolledBack :
        (p : Part) (w : World)
        → Recoverable fs old w.events p
        → RolledBack p w.events (rollback_part env p w)
    unfolding rollback_part is_exist remove_tree move_file_or_dir
    rollback_part-RolledBack p w r = elim (Bool-cases (env.is_missing w.events (path scr p))) [
      | inl gone ↦ rw gone (
        λ x e.
            fs.after_stat w.events (path scr p) org p
            ∙ Recoverable-gone w.events p (is_none-eq _ (sym (fs.missing w.events scr p) ∙ gone)) r
                x e,
        λ q other a. fs.after_stat w.events (path scr p) a q,
      )
      | inr there ↦
          let h1 = stat (path scr p) ∷ w.events in
          rw there (
            λ x e.
                (put_back p h1).0
                ∙ fs.after_stat w.events (path scr p) scr p
                ∙ Recoverable-there w.events p (sym (fs.missing w.events scr p) ∙ there) r
                ∙ e,
            λ q other a. (put_back p h1).1 q other a ∙ fs.after_stat w.events (path scr p) a q,
          )
    ]

    -- The parts still to do can be recovered, and the others are restored.
    abbrev RollProgress : List Part → List Event → Type 0
    RollProgress parts h =
        (q : Part)
        → (member q parts ≡ true → Recoverable fs old h q) × (member q parts ≡ false → Restored h q)

    abbrev pub AllRestored : Outcome (Unit {0}) × World → Type 0
    AllRestored (ret u, w) = (q : Part) → Restored w.events q
    AllRestored (exited c, w) = ⊥

    Recoverable-keep_both :
        (q : Part) (h h' : List Event)
        → ((a : Place) → files h' a q ≡ files h a q)
        → Recoverable fs old h q
        → Recoverable fs old h' q
    Recoverable-keep_both q h h' k (inl s) = inl (Saved-keep q h h' k s)
    Recoverable-keep_both q h h' k (inr u) = inr (Untouched-keep q h h' k u)

    roll-AllRestored :
        (p : Part) (parts : List Part) (h : List Event) (r : Outcome Error × World)
        → member p parts ≡ false
        → RollProgress (p ∷ parts) h
        → RolledBack p h r
        → ((w : World) → RollProgress parts w.events → AllRestored (rollback env parts w))
        → AllRestored (continue r (λ _. rollback env parts))
    roll-AllRestored p parts h (exited c, w) once progress t rest = absurd t
    roll-AllRestored p parts h (ret e, w) once progress (done, others) rest = rest w λ q.
        elim (Bool-cases (same_part q p)) [
          | inl same ↦
              let e : q ≡ p = same_part-eq q p same in (λ m. absurd (ground arith), λ m. rw e done)
          | inr other ↦ (
            λ m.
                Recoverable-keep_both q h w.events (others q other)
                  ((progress q).0 (rw (other, m))),
            λ m x e. others q other org ∙ (progress q).1 (rw (other, m)) x e,
          )
        ]

    pub rollback-AllRestored :
        (parts : List Part) (w : World)
        → Distinct parts
        → RollProgress parts w.events
        → AllRestored (rollback env parts w)
    unfolding rollback
    rollback-AllRestored [] w d progress = λ q. (progress q).1 refl
    rollback-AllRestored (p ∷ parts) w (once, d) progress =
        roll-AllRestored p parts w.events (rollback_part env p w) once progress
          (rollback_part-RolledBack p w ((progress p).0 (rw (same_part_refl p))))
          (λ w' progress'. rollback-AllRestored parts w' d progress')
