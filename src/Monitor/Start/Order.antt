-- ===== src/Monitor/Start/Order.antt =====
-- The order in which Go gives the keys of the map of mounts.
use px_installer.Base.{
  ℕ, Bool, true, false, not, none, some, List, [], ◌∷◌, ◌≡◌, refl, sym, ap, ◌∙◌, ◌||◌, arith, any,
  Bool-cases, inl, inr, Bytes, lit,
}
use mathlib.Core.Path.{ap₂}
use mathlib.Core.Logic.{∥∥₁_elim}
use mathlib.Core.List.{Perm, Permᴰ}
use px_installer.Base.Result.{Result, ok, err}
use px_installer.World.{Error, Env, World}
use px_installer.Monitor.Args.{Settings}
use px_installer.Monitor.Mounted.{on_device, err_mounts, mount_error, validate_mounted, with_root}
use px_installer.Monitor.Start.{container_dir, container_dirs, with_mounts, start_up}

or_swap : (x y z : Bool) → x || (y || z) ≡ y || (x || z)
or_swap x y z = ground arith

-- A test that some item passes, over a list and over its permutations.
any-Permᴰ : {A : Type 0} (p : A → Bool) {xs ys : List A} → Permᴰ xs ys → any p xs ≡ any p ys
any-Permᴰ p Permᴰ.nil = refl
any-Permᴰ p (Permᴰ.cons {a = a} {b = b} e d) = ap₂ ◌||◌ (ap p e) (any-Permᴰ p d)
any-Permᴰ p (Permᴰ.swap {a = a} {b = b} {a' = a'} {b' = b'} {l = l} e f) =
    or_swap (p a) (p b) (any p l) ∙ ap₂ (λ x y. x || (y || any p l)) (ap p f) (ap p e)
any-Permᴰ p (Permᴰ.trans d e) = any-Permᴰ p d ∙ any-Permᴰ p e

any-Perm : {A : Type 0} (p : A → Bool) (xs ys : List A) → Perm xs ys → any p xs ≡ any p ys
any-Perm p xs ys perm = ∥∥₁_elim perm (hlevel) (any-Permᴰ p)

abbrev is_none : Error → Bool
is_none none = true
is_none (some message) = false

module _ (lstat : Bytes → Result Bytes ℕ) where
  abbrev is_bad : ℕ → Bytes → Bool
  is_bad root m = on_device lstat root (lstat (container_dir m))

  none-err_mounts :
      (root : ℕ) (mounts : List Bytes)
      → is_none (mount_error lstat (err_mounts lstat root (container_dirs mounts)))
        ≡ not (any (is_bad root) mounts)
  unfolding err_mounts
  none-err_mounts root [] = refl
  none-err_mounts root (m ∷ mounts) = elim (Bool-cases (is_bad root m)) [
    | inl bad ↦ rw bad refl
    | inr good ↦ rw good (none-err_mounts root mounts)
  ]

  with_root-Perm :
      (r : Result Bytes ℕ) (mounts mounts' : List Bytes)
      → Perm mounts mounts'
      → is_none (with_root lstat (container_dirs mounts) r)
        ≡ is_none (with_root lstat (container_dirs mounts') r)
  with_root-Perm (err m) mounts mounts' perm = refl
  with_root-Perm (ok root) mounts mounts' perm =
      none-err_mounts root mounts
      ∙ ap not (any-Perm (is_bad root) mounts mounts' perm)
      ∙ sym (none-err_mounts root mounts')

module _ (env : Env) (px_tag : Bytes) (lstat : Bytes → Result Bytes ℕ) (s : Settings) where
  with_mounts_congr :
      (e e' : Error) (w : World)
      → is_none e ≡ is_none e'
      → with_mounts env px_tag lstat s e w ≡ with_mounts env px_tag lstat s e' w
  with_mounts_congr none none w h = refl
  with_mounts_congr (some m) (some m') w h = refl
  with_mounts_congr none (some m') w h = absurd cc
  with_mounts_congr (some m) none w h = absurd cc

  -- Go gives the keys of a map in any order: the start does the same for each order of the mounts.
  pub start_up-Perm :
      (mounts mounts' : List Bytes) (w : World)
      → Perm mounts mounts'
      → start_up env px_tag lstat s mounts w ≡ start_up env px_tag lstat s mounts' w
  unfolding start_up validate_mounted
  start_up-Perm mounts mounts' w perm =
      with_mounts_congr _ _ w (with_root-Perm lstat (lstat (lit "/")) mounts mounts' perm)
