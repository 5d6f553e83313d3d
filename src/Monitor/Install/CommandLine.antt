-- ===== src/Monitor/Install/CommandLine.antt =====
-- What is passed on to px-runc.
use px_installer.Base.{
  ◌<◌, true, List, [], ◌∷◌, ◌++◌, ◌≡◌, ◌⊎◌, inl, inr, refl, arith, length, ltb, Bytes, lit,
  str_eq_iff, has_prefix, has_prefix-append, Bool-cases,
}
use px_installer.Monitor.Install.{oci_private_mounts, is_private, skips_mount, mount_args}

-- The mounts that are the monitor's own, or no mounts at all.
abbrev pub IsPrivate : Bytes → Type 0
IsPrivate vol =
    (vol ≡ lit "/etc/pwx:/etc/pwx")
    ⊎ (vol ≡ lit "/opt/pwx:/opt/pwx")
    ⊎ (vol ≡ lit "/etc/systemd/system:/etc/systemd/system")
    ⊎ (vol ≡ lit "/proc/1/ns:/host_proc/1/ns")
    ⊎ (vol ≡ lit "/var/run/docker.sock:/var/run/docker.sock")

-- One of the monitor's own, or shorter than four bytes, or the Docker socket mounted anywhere.
abbrev pub Skipped : Bytes → Type 0
Skipped vol =
    IsPrivate vol
    ⊎ (length vol < 4)
    ⊎ ((target : Bytes) × (vol ≡ lit "/var/run/docker.sock:" ++ target))

-- The arguments for some mounts: `-v` and the text of each that is not skipped, in order.
pub data PassedOn : List Bytes → List Bytes → Type 0 where
  no_mounts : PassedOn [] []
  skipped :
      (vol : Bytes) {mounts args : List Bytes}
      → Skipped vol
      → PassedOn mounts args
      → PassedOn (vol ∷ mounts) args
  passed :
      (vol : Bytes) {mounts args : List Bytes}
      → ¬ Skipped vol
      → PassedOn mounts args
      → PassedOn (vol ∷ mounts) (lit "-v" ∷ vol ∷ args)

has_prefix-split :
    (s prefix : Bytes) → has_prefix s prefix ≡ true → (rest : Bytes) × (s ≡ prefix ++ rest)
unfolding has_prefix
has_prefix-split s [] h = (s, refl)
has_prefix-split [] (p ∷ prefix) h = cc
has_prefix-split (c ∷ s) (p ∷ prefix) h =
    let same : c ≡ p = ground arith in
    let (rest, e) = has_prefix-split s prefix (ground arith) in (rest, rw (same, e) refl)

has_prefix-of_append :
    (vol prefix rest : Bytes) → vol ≡ prefix ++ rest → has_prefix vol prefix ≡ true
has_prefix-of_append vol prefix rest e = rw e (has_prefix-append prefix rest)

is_private-IsPrivate : (vol : Bytes) → is_private vol oci_private_mounts ≡ true → IsPrivate vol
unfolding is_private
is_private-IsPrivate vol h = ground (
  arith,
  str_eq_iff vol (lit "/etc/pwx:/etc/pwx"),
  str_eq_iff vol (lit "/opt/pwx:/opt/pwx"),
  str_eq_iff vol (lit "/etc/systemd/system:/etc/systemd/system"),
  str_eq_iff vol (lit "/proc/1/ns:/host_proc/1/ns"),
  str_eq_iff vol (lit "/var/run/docker.sock:/var/run/docker.sock"),
)

IsPrivate-is_private : (vol : Bytes) → IsPrivate vol → is_private vol oci_private_mounts ≡ true
unfolding is_private
IsPrivate-is_private vol h = ground (
  arith,
  str_eq_iff vol (lit "/etc/pwx:/etc/pwx"),
  str_eq_iff vol (lit "/opt/pwx:/opt/pwx"),
  str_eq_iff vol (lit "/etc/systemd/system:/etc/systemd/system"),
  str_eq_iff vol (lit "/proc/1/ns:/host_proc/1/ns"),
  str_eq_iff vol (lit "/var/run/docker.sock:/var/run/docker.sock"),
)

skips_mount-Skipped : (vol : Bytes) → skips_mount vol ≡ true → Skipped vol
unfolding skips_mount
skips_mount-Skipped vol h = elim (Bool-cases (is_private vol oci_private_mounts)) [
  | inl own ↦ inl (is_private-IsPrivate vol own)
  | inr other ↦ elim (Bool-cases (ltb (length vol) 4)) [
    | inl short ↦ inr (inl (ground arith))
    | inr long ↦ inr (inr (has_prefix-split vol (lit "/var/run/docker.sock:") (ground arith)))
  ]
]

Skipped-skips_mount : (vol : Bytes) → Skipped vol → skips_mount vol ≡ true
unfolding skips_mount
Skipped-skips_mount vol (inl own) = rw (IsPrivate-is_private vol own) refl
Skipped-skips_mount vol (inr (inl short)) = ground arith
Skipped-skips_mount vol (inr (inr (target, e))) =
    ground (arith, has_prefix-of_append vol (lit "/var/run/docker.sock:") target e)

-- The arguments for px-runc are `-v` and the mount for each mount of the container, in order,
-- except those that are skipped: the monitor's own five, texts shorter than four bytes, and
-- anything that begins with the Docker socket as its source.
pub mount_args-PassedOn : (mounts : List Bytes) → PassedOn mounts (mount_args mounts)
unfolding mount_args
mount_args-PassedOn [] = no_mounts
mount_args-PassedOn (vol ∷ mounts) = elim (Bool-cases (skips_mount vol)) [
  | inl skip ↦ rw skip (skipped vol (skips_mount-Skipped vol skip) (mount_args-PassedOn mounts))
  | inr keep ↦
      let other : ¬ Skipped vol = λ h. let there = Skipped-skips_mount vol h in ground arith in
      rw keep (passed vol other (mount_args-PassedOn mounts))
]
