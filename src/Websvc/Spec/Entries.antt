-- ===== src/Websvc/Spec/Entries.antt =====
-- What the templates are given.
use px_installer.Base.{
  has_prefix, ◌≤◌, true, false, ◌||◌, ◌↔◌, List, [], ◌∷◌, ◌++◌, ◌≡◌, ◌≢◌, ◌⊎◌, inl, inr, refl, sym,
  ap, subst, arith, if◌then◌else◌, Bytes, lit, str_eq, str_eq_iff, trim_space, length, join,
  append_assoc, append-nil, Bool-cases,
}
use px_installer.Base.Result.{Result, ok, err}
use px_installer.Websvc.KubeVer.{KubeVer, VersionError, v_a1, parse_kube_ver}
use px_installer.Websvc.KubeVer.Shape.{IsVersion, parse_kube_ver-IsVersion}
use px_installer.Websvc.KubeVer.Rbac.{parse_kube_ver-gke}
use px_installer.Websvc.Spec.{
  InstallParams, SpecError, trim, in_cutset, write_drives, drives_of, env_of, image_of,
  with_version, checked_version, with_env, with_drives, fix_params,
}

-- The options for the devices that are not blank.
unfoldable pub drive_options : List Bytes → List Bytes
drive_options [] = []
drive_options (dev ∷ devs) =
    let d = trim in_cutset dev in
    let rest = drive_options devs in
    if str_eq d [] then rest else (lit "\"-s\", \"" ++ (d ++ lit "\"")) ∷ rest

abbrev behind : List Bytes → Bytes
behind [] = []
behind (o ∷ options) = lit ", " ++ (o ++ behind options)

join-behind :
    (o : Bytes) (options : List Bytes) → join (lit ", ") (o ∷ options) ≡ o ++ behind options
unfolding join
join-behind o [] = sym (append-nil o)
join-behind o (q ∷ options) = ap (λ s. o ++ (lit ", " ++ s)) (join-behind q options)

write_drives-behind :
    (devs : List Bytes) → write_drives (lit ", ") devs ≡ behind (drive_options devs)
unfolding write_drives drive_options
write_drives-behind [] = refl
write_drives-behind (dev ∷ devs) = elim (Bool-cases (str_eq (trim in_cutset dev) [])) [
  | inl blank ↦ rw blank (write_drives-behind devs)
  | inr there ↦ rw (there, write_drives-behind devs, append_assoc, append_assoc) refl
]

-- The separator that the loop carries along makes a list with ", " between its items: one option
-- for each device that is more than blanks and quotes, in order.
pub write_drives-join :
    (devs : List Bytes) → write_drives [] devs ≡ join (lit ", ") (drive_options devs)
unfolding write_drives drive_options
write_drives-join [] = unfold join in refl
write_drives-join (dev ∷ devs) = elim (Bool-cases (str_eq (trim in_cutset dev) [])) [
  | inl blank ↦ rw blank (write_drives-join devs)
  | inr there ↦
      rw
        (
          there,
          write_drives-behind devs,
          join-behind _ (drive_options devs),
          append_assoc,
          append_assoc,
        )
        refl
]

module _ (read_all : Bytes → Result Bytes (List (List Bytes)))
    (templates : Bytes → Result Bytes (InstallParams → Result Bytes Bytes)) (px_tag : Bytes) where
  -- The parameters for the template follow from those of the request and the version they name.
  abbrev pub Follows : InstallParams → InstallParams → KubeVer → Type 0
  Follows p p' k =
      (p'.kube_ver ≡ k.ver)
      × (p'.rbac_auth_ver ≡ k.rbac_auth_ver)
      × ((p'.need_controller ≡ true) ↔ ((p.openshift ≡ lit "true") ⊎ (k.is_gke ≡ true)))
      × ((k.is_gke ≡ false) ⊎ (p'.rbac_auth_ver ≢ v_a1))

  -- The image of the request, or the one of the tag for the kind of install.
  abbrev pub NamesImage : InstallParams → Bytes → Type 0
  NamesImage p image =
      ((p.px_image ≢ []) × (image ≡ p.px_image))
      ⊎ ((p.px_image ≡ [])
          × (has_prefix p.kind_of_install (lit "dock") ≡ true)
          × (image ≡ lit "portworx/px-enterprise:" ++ px_tag))
      ⊎ ((p.px_image ≡ [])
          × (has_prefix p.kind_of_install (lit "dock") ≡ false)
          × (image ≡ lit "portworx/oci-monitor:" ++ px_tag))

  abbrev pub Sound : InstallParams → InstallParams → Type 0
  Sound p p' =
      NamesImage p p'.px_image
      × (IsVersion p'.kube_ver ⊎ (length (trim_space p.kube_ver) ≤ 1))
      × ((k : KubeVer) × (parse_kube_ver p.kube_ver ≡ ok k) × Follows p p' k)

  image_of-NamesImage : (p : InstallParams) → NamesImage p (image_of read_all templates px_tag p)
  unfolding image_of
  image_of-NamesImage p = elim (Bool-cases (str_eq p.px_image [])) [
    | inl unset ↦
        let empty : p.px_image ≡ [] = (str_eq_iff p.px_image []).0 unset in
        elim (Bool-cases (has_prefix p.kind_of_install (lit "dock"))) [
          | inl docker ↦ inr (inl (empty, docker, ground arith))
          | inr oci ↦ inr (inr (empty, oci, ground arith))
        ]
    | inr given ↦
        let some_image : p.px_image ≢ [] =
          λ e. let same = (str_eq_iff p.px_image []).1 e in ground arith in
        inl (some_image, ground arith)
  ]

  with_version-Sound :
      (p : InstallParams) (drives env : Bytes) {k : KubeVer}
      → parse_kube_ver p.kube_ver ≡ ok k
      → Sound p (with_version read_all templates px_tag p drives env k)
  unfolding with_version
  with_version-Sound p drives env {k} e = (
    image_of-NamesImage p,
    elim (parse_kube_ver-IsVersion p.kube_ver e) [
      | inl version ↦ inl version
      | inr (short, same, plain) ↦ inr short
    ],
    (k, e, (refl, refl, asked, no_gke)),
  )
    where
      asked :
          ((str_eq p.openshift (lit "true") || k.is_gke) ≡ true)
          ↔ ((p.openshift ≡ lit "true") ⊎ (k.is_gke ≡ true))
      asked = ground (arith, str_eq_iff p.openshift (lit "true"))

      no_gke : (k.is_gke ≡ false) ⊎ (k.rbac_auth_ver ≢ v_a1)
      no_gke = elim (Bool-cases k.is_gke) [
        | inl gke ↦ inr (parse_kube_ver-gke p.kube_ver e gke)
        | inr plain ↦ inl plain
      ]

  checked_version-Sound :
      (p : InstallParams) (drives env : Bytes) (r : Result VersionError KubeVer)
      {p' : InstallParams}
      → parse_kube_ver p.kube_ver ≡ r
      → checked_version read_all templates px_tag p drives env r ≡ ok p'
      → Sound p p'
  checked_version-Sound p drives env (err m) v e = absurd (ground arith)
  checked_version-Sound p drives env (ok k) {p'} v e =
      let same : with_version read_all templates px_tag p drives env k ≡ p' = cc in
      subst (Sound p) same (with_version-Sound p drives env v)

  with_env-Sound :
      (p : InstallParams) (drives : Bytes) (r : Result SpecError Bytes) {p' : InstallParams}
      → with_env read_all templates px_tag p drives r ≡ ok p'
      → Sound p p'
  with_env-Sound p drives (err m) e = absurd (ground arith)
  with_env-Sound p drives (ok env) e =
      checked_version-Sound p drives env (parse_kube_ver p.kube_ver) refl e

  with_drives-Sound :
      (p : InstallParams) (r : Result SpecError Bytes) {p' : InstallParams}
      → with_drives read_all templates px_tag p r ≡ ok p'
      → Sound p p'
  with_drives-Sound p (err m) e = absurd (ground arith)
  with_drives-Sound p (ok drives) e = with_env-Sound p drives (env_of read_all templates px_tag p) e

  -- Parameters that a template is given name the image of the request, or by default px-enterprise
  -- for a Docker install and oci-monitor otherwise, with the configured tag. Their version and RBAC version are those
  -- that the version parser gives for the version of the request: three dotted numbers, unless
  -- that text has at most one byte when trimmed, which is not checked. The controller is started
  -- exactly if OpenShift is asked for or the version is one of GKE, and GKE never gets RBAC
  -- v1alpha1.
  pub fix_params-Sound :
      (p : InstallParams) {p' : InstallParams}
      → fix_params read_all templates px_tag p ≡ ok p'
      → Sound p p'
  unfolding fix_params
  fix_params-Sound p e = with_drives-Sound p (drives_of read_all templates px_tag p) e
