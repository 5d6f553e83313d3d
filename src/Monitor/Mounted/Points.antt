-- ===== src/Monitor/Mounted/Points.antt =====
-- When `validateMounted` is content.
use px_installer.Base.{
  ℕ, false, none, List, [], ◌∷◌, ◌≡◌, ◌↔◌, refl, arith, Bytes, lit, All, Bool-cases, inl, inr,
}
use px_installer.Base.Result.{Result, ok, err}
use px_installer.Monitor.Mounted.{on_device, err_mounts, mount_error, validate_mounted, IsMounted}

module _ (lstat : Bytes → Result Bytes ℕ) (root : ℕ) where
  mounted :
      (m : Bytes) (r : Result Bytes ℕ)
      → lstat m ≡ r
      → on_device lstat root r ≡ false
      → IsMounted lstat root m
  mounted m (ok dev) e h = (dev, e, h)
  mounted m (err message) e h = cc

  not_on_device : (m : Bytes) → IsMounted lstat root m → on_device lstat root (lstat m) ≡ false
  not_on_device m (dev, e, h) = rw e h

  All-of_err_mounts :
      (mounts : List Bytes) → err_mounts lstat root mounts ≡ [] → All (IsMounted lstat root) mounts
  unfolding err_mounts
  All-of_err_mounts [] e = tt
  All-of_err_mounts (m ∷ mounts) e = elim (Bool-cases (on_device lstat root (lstat m))) [
    | inl bad ↦ absurd (ground arith)
    | inr good ↦ (mounted m (lstat m) refl good, All-of_err_mounts mounts (ground arith))
  ]

  err_mounts_of-All :
      (mounts : List Bytes) → All (IsMounted lstat root) mounts → err_mounts lstat root mounts ≡ []
  unfolding err_mounts
  err_mounts_of-All [] a = refl
  err_mounts_of-All (m ∷ mounts) a = rw (not_on_device m a.0) (err_mounts_of-All mounts a.1)

  mount_error_iff : (ms : List Bytes) → (mount_error lstat ms ≡ none) ↔ (ms ≡ [])
  mount_error_iff [] = ground arith
  mount_error_iff (m ∷ ms) = ground arith

  -- If the root directory can be read, there is no error exactly when every listed path is there
  -- and on another device than the root directory.
  pub validate_mounted_iff :
      (mounts : List Bytes)
      → lstat (lit "/") ≡ ok root
      → (validate_mounted lstat mounts ≡ none) ↔ All (IsMounted lstat root) mounts
  unfolding validate_mounted
  validate_mounted_iff mounts e = rw e (
      (
        λ h. All-of_err_mounts mounts ((mount_error_iff (err_mounts lstat root mounts)).0 h),
        λ a. (mount_error_iff (err_mounts lstat root mounts)).1 (err_mounts_of-All mounts a),
      ))
