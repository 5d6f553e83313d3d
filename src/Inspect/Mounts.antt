-- ===== src/Inspect/Mounts.antt =====
-- The mounts that `formatMounts` writes.
use px_installer.Base.{
  true, false, List, [], ◌∷◌, ◌++◌, ◌≡◌, ◌≢◌, ◌⊎◌, inl, inr, refl, arith, Bytes, lit, str_eq,
  str_eq_iff, trim_space, Bool-cases, ◌||◌, append-nil, if◌then◌else◌, subst, sym,
}
use px_installer.World.{ContainerJson, MountPoint}
use px_installer.Inspect.{
  mount_options, mount_text, has_destination, mount_texts, extra, format_mounts,
}

-- The propagation is a private one or is blank: it is not written.
abbrev pub IsUnwritten : Bytes → Type 0
IsUnwritten propagation =
    (propagation ≡ lit "private") ⊎ (propagation ≡ lit "rprivate") ⊎ (trim_space propagation ≡ [])

-- The options of a mount in the Docker CLI's notation: its propagation, then `ro` if it is not
-- writable.
pub data IsOptions (m : MountPoint) : Bytes → Type 0 where
  no_options : IsUnwritten m.propagation → m.rw ≡ true → IsOptions m []
  only_ro : IsUnwritten m.propagation → m.rw ≡ false → IsOptions m (lit ":ro")
  shared :
      ¬ IsUnwritten m.propagation → m.rw ≡ true → IsOptions m (lit ":" ++ trim_space m.propagation)
  shared_ro :
      ¬ IsUnwritten m.propagation
      → m.rw ≡ false
      → IsOptions m (lit ":" ++ (trim_space m.propagation ++ lit ",ro"))

-- `source:destination`, with the options.
abbrev pub IsMountText : MountPoint → Bytes → Type 0
IsMountText m text =
    (options : Bytes) × IsOptions m options
    × (text ≡ m.source ++ (lit ":" ++ (m.destination ++ options)))

-- One text for each mount, in order.
pub data MountTexts : List MountPoint → List Bytes → Type 0 where
  no_mounts : MountTexts [] []
  next_mount :
      {m : MountPoint} {text : Bytes} {mounts : List MountPoint} {texts : List Bytes}
      → IsMountText m text
      → MountTexts mounts texts
      → MountTexts (m ∷ mounts) (text ∷ texts)

-- One of the mounts has this destination.
abbrev pub HasDestination : Bytes → List MountPoint → Type 0
HasDestination d [] = ⊥
HasDestination d (m ∷ mounts) = (m.destination ≡ d) ⊎ HasDestination d mounts

-- A file of the container that should be mounted at a destination: a read-only mount of it, unless
-- there is no such file or one of the mounts has that destination.
pub data IsExtra (source d : Bytes) (mounts : List MountPoint) : List Bytes → Type 0 where
  no_file : source ≡ [] → IsExtra source d mounts []
  mounted : HasDestination d mounts → IsExtra source d mounts []
  added :
      source ≢ []
      → ¬ HasDestination d mounts
      → IsExtra source d mounts ((source ++ (lit ":" ++ (d ++ lit ":ro"))) ∷ [])

-- The texts of the mounts, then those for /etc/hosts and /etc/resolv.conf.
pub record Formatted (c : ContainerJson) (out : List Bytes) : Type 0 where
  pub texts : List Bytes
  pub hosts : List Bytes
  pub resolv : List Bytes
  pub texts_of : MountTexts c.mounts texts
  pub hosts_of : IsExtra c.hosts_path (lit "/etc/hosts") c.mounts hosts
  pub resolv_of : IsExtra c.resolv_conf_path (lit "/etc/resolv.conf") c.mounts resolv
  pub all : out ≡ texts ++ (hosts ++ resolv)

-- Whether a mount's propagation goes unwritten, as `mount_options` tests it.
IsUnwritten-cases :
    (m : MountPoint)
    → (IsUnwritten m.propagation
        × ((str_eq m.propagation (lit "private")
              || str_eq m.propagation (lit "rprivate")
              || str_eq (trim_space m.propagation) [])
            ≡ true))
      ⊎ ((¬ IsUnwritten m.propagation)
          × ((str_eq m.propagation (lit "private")
                || str_eq m.propagation (lit "rprivate")
                || str_eq (trim_space m.propagation) [])
              ≡ false))
IsUnwritten-cases m = ground (
  arith,
  str_eq_iff m.propagation (lit "private"),
  str_eq_iff m.propagation (lit "rprivate"),
  str_eq_iff (trim_space m.propagation) [],
)

mount_options-unwritten :
    (m : MountPoint)
    → (str_eq m.propagation (lit "private")
        || str_eq m.propagation (lit "rprivate")
        || str_eq (trim_space m.propagation) [])
      ≡ true
    → mount_options m ≡ (if m.rw then [] else lit ":ro")
unfolding mount_options
mount_options-unwritten m e = rw e refl

mount_options-written :
    (m : MountPoint)
    → (str_eq m.propagation (lit "private")
        || str_eq m.propagation (lit "rprivate")
        || str_eq (trim_space m.propagation) [])
      ≡ false
    → mount_options m ≡ lit ":" ++ (trim_space m.propagation ++ (if m.rw then [] else lit ",ro"))
unfolding mount_options
mount_options-written m e = rw e refl

mount_options-IsOptions : (m : MountPoint) → IsOptions m (mount_options m)
mount_options-IsOptions m = elim (IsUnwritten-cases m) [
  | inl (plain, e) ↦ rw (mount_options-unwritten m e) (elim (Bool-cases m.rw) [
    | inl writable ↦ subst (IsOptions m) (sym (simp writable)) (no_options plain writable)
    | inr read_only ↦ subst (IsOptions m) (sym (simp read_only)) (only_ro plain read_only)
  ])
  | inr (written, e) ↦ rw (mount_options-written m e) (elim (Bool-cases m.rw) [
    | inl writable ↦
        subst (IsOptions m) (sym (simp (writable, append-nil))) (shared written writable)
    | inr read_only ↦ subst (IsOptions m) (sym (simp read_only)) (shared_ro written read_only)
  ])
]

mount_texts-MountTexts : (mounts : List MountPoint) → MountTexts mounts (mount_texts mounts)
unfolding mount_texts mount_text
mount_texts-MountTexts [] = no_mounts
mount_texts-MountTexts (m ∷ mounts) =
    next_mount (mount_options m, mount_options-IsOptions m, refl) (mount_texts-MountTexts mounts)

has_destination-HasDestination :
    (d : Bytes) (mounts : List MountPoint)
    → has_destination d mounts ≡ true
    → HasDestination d mounts
unfolding has_destination
has_destination-HasDestination d [] h = cc
has_destination-HasDestination d (m ∷ mounts) h = elim (Bool-cases (str_eq m.destination d)) [
  | inl same ↦ inl ((str_eq_iff m.destination d).0 same)
  | inr other ↦ inr (has_destination-HasDestination d mounts (ground arith))
]

HasDestination-has_destination :
    (d : Bytes) (mounts : List MountPoint)
    → HasDestination d mounts
    → has_destination d mounts ≡ true
unfolding has_destination
HasDestination-has_destination d [] h = absurd h
HasDestination-has_destination d (m ∷ mounts) (inl e) =
    ground (arith, (str_eq_iff m.destination d).1 e)
HasDestination-has_destination d (m ∷ mounts) (inr h) =
    ground (arith, HasDestination-has_destination d mounts h)

extra-IsExtra :
    (source d : Bytes) (mounts : List MountPoint) → IsExtra source d mounts (extra source d mounts)
unfolding extra
extra-IsExtra source d mounts = elim (Bool-cases (str_eq source [])) [
  | inl none_given ↦ rw none_given (no_file ((str_eq_iff source []).0 none_given))
  | inr given ↦ elim (Bool-cases (has_destination d mounts)) [
    | inl there ↦ rw (given, there) (mounted (has_destination-HasDestination d mounts there))
    | inr absent ↦
        let some_file : source ≢ [] = λ e. let same = (str_eq_iff source []).1 e in ground arith in
        let unmounted : ¬ HasDestination d mounts =
          λ h. let there = HasDestination-has_destination d mounts h in ground arith in
        rw (given, absent) (added some_file unmounted)
  ]
]

-- The list has a text for each mount of the container, in order: its source and destination, its
-- propagation unless that is private or blank, and `ro` if it is not writable. Behind them come
-- read-only mounts of the container's own files for /etc/hosts and /etc/resolv.conf, each unless
-- the container has no such file or one of its mounts is there.
pub format_mounts-Formatted : (c : ContainerJson) → Formatted c (format_mounts c)
unfolding format_mounts
format_mounts-Formatted c = record {
  texts = mount_texts c.mounts;
  hosts = extra c.hosts_path (lit "/etc/hosts") c.mounts;
  resolv = extra c.resolv_conf_path (lit "/etc/resolv.conf") c.mounts;
  texts_of = mount_texts-MountTexts c.mounts;
  hosts_of = extra-IsExtra c.hosts_path (lit "/etc/hosts") c.mounts;
  resolv_of = extra-IsExtra c.resolv_conf_path (lit "/etc/resolv.conf") c.mounts;
  all = refl;
}
