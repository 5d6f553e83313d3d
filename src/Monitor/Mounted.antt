-- ===== src/Monitor/Mounted.antt =====
-- `validateMounted` of px-oci-mon/main.go.
pub mod Points
use px_installer.Base.{
  ℕ, Bool, true, false, ◌||◌, ◌&&◌, Option, none, some, List, [], ◌∷◌, ◌++◌, ◌≡◌, ◌↔◌, refl, arith,
  if◌then◌else◌, Bytes, lit, join, ◌==◌, All,
}
use px_installer.Base.Result.{Result, ok, err}

-- `lstat` gives the device of a path, or the message of an error.
module _ (lstat : Bytes → Result Bytes ℕ) where
  abbrev pub on_device : ℕ → Result Bytes ℕ → Bool
  on_device root (err message) = true
  on_device root (ok dev) = root == dev

  -- The mounts that are missing, or on the device of the root directory.
  unfoldable pub err_mounts : ℕ → List Bytes → List Bytes
  err_mounts root [] = []
  err_mounts root (m ∷ mounts) =
      let rest = err_mounts root mounts in if on_device root (lstat m) then m ∷ rest else rest

  -- With no such mount the last `lstat` went well, so the error is nil.
  abbrev pub mount_error : List Bytes → Option Bytes
  mount_error [] = none
  mount_error (m ∷ mounts) = some (
      lit "Following dirs/files must be mounted into this continer: "
      ++ join (lit ", ") (m ∷ mounts))

  abbrev pub with_root : List Bytes → Result Bytes ℕ → Option Bytes
  with_root mounts (err message) = some (lit "INTERNAL ERROR - could not stat '/': " ++ message)
  with_root mounts (ok root) = mount_error (err_mounts root mounts)

  unfoldable pub validate_mounted : List Bytes → Option Bytes
  validate_mounted mounts = with_root mounts (lstat (lit "/"))

  -- A mount point: it is there, and on another device than the root directory.
  abbrev pub IsMounted : ℕ → Bytes → Type 0
  IsMounted root m = (dev : ℕ) × (lstat m ≡ ok dev) × ((root == dev) ≡ false)
