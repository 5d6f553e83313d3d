-- ===== src/Websvc/Spec.antt =====
-- `splitCsv` and `generateInstallSpec` of px-spec-websvc/px-spec-websvc.go.
pub mod Entries
use px_installer.Base.{
  ℕ, Bool, true, false, not, ◌||◌, Option, none, some, List, [], ◌∷◌, ◌++◌, if◌then◌else◌, ◌==◌,
  Bytes, lit, str_eq, has_prefix, trim_left,
}
use mathlib.Core.List.{reverse}
use px_installer.Base.Result.{Result, ok, err}
use px_installer.Websvc.KubeVer.{KubeVer, VersionError, parse_kube_ver}

-- The fields that the templates and the code below look at. Those that are only handed on to the
-- templates are in `others`, by name.
pub record InstallParams : Type 0 where
  pub kind_of_install : Bytes
  pub drives : Bytes
  pub kube_ver : Bytes
  pub master : Bytes
  pub force : Bytes
  pub env_entries : Bytes
  pub openshift : Bytes
  pub zero_storage : Bytes
  pub px_image : Bytes
  pub master_less : Bool
  pub is_run_c : Bool
  pub tmpl_ver : Bytes
  pub rbac_auth_ver : Bytes
  pub need_controller : Bool
  pub start_stork : Bool
  pub origin : Bytes
  pub others : List (Bytes × Bytes)

-- What can go wrong: a message of a library or of `splitCsv`, or a version that is not accepted.
pub data SpecError : Type 0 where
  message : Bytes → SpecError
  bad_version : VersionError → SpecError

-- `strings.Trim(s, cutset)`
unfoldable pub trim : (ℕ → Bool) → Bytes → Bytes
trim p s = reverse (trim_left p (reverse (trim_left p s)))

-- The cutset of a blank and a double quote.
abbrev pub in_cutset : ℕ → Bool
in_cutset c = c == b' ' || c == b'"'

-- The drives loop: `sep` is empty before the first device is written.
unfoldable pub write_drives : Bytes → List Bytes → Bytes
write_drives sep [] = []
write_drives sep (dev ∷ devs) =
    let d = trim in_cutset dev in
    let skipped = write_drives sep devs in
    let rest = write_drives (lit ", ") devs in
    if str_eq d [] then skipped else sep ++ (lit "\"-s\", \"" ++ (d ++ (lit "\"" ++ rest)))

-- `strings.SplitN(e, "=", 2)` where it has two parts.
unfoldable pub split_entry : Bytes → Option (Bytes × Bytes)
split_entry [] = none
split_entry (c ∷ s) =
    let later = split_entry s in
    if c == b'=' then some ([], s) else elim later [ none ↦ none | some (k, v) ↦ some (c ∷ k, v) ]

abbrev pub entry_text : Bytes → Bytes → Bytes
entry_text k v =
    lit "- name: \""
    ++ (trim in_cutset k
        ++ (lit "\"\n" ++ (lit "              value: \"" ++ (trim in_cutset v ++ lit "\"\n"))))

-- The environment loop: `prefix` is empty before the first entry is written.
unfoldable pub write_env : Bytes → List Bytes → Bytes
write_env prefix [] = []
write_env prefix (e ∷ entries) =
    let skipped = write_env prefix entries in
    let rest = write_env (lit "            ") entries in
    elim (split_entry e) [ none ↦ skipped | some (k, v) ↦ prefix ++ (entry_text k v ++ rest) ]

abbrev pub one_record : Result Bytes (List (List Bytes)) → Result SpecError (List Bytes)
one_record (err m) = err (message m)
one_record (ok []) = ok []
one_record (ok (r ∷ [])) = ok r
one_record (ok (r ∷ s ∷ records)) = err (message (lit "Multiline CSV not supported"))

abbrev pub mapped : (List Bytes → Bytes) → Result SpecError (List Bytes) → Result SpecError Bytes
mapped f (err e) = err e
mapped f (ok items) = ok (f items)

-- `read_all` is `ReadAll` of a CSV reader that trims leading space, and `templates` parses a
-- template file into what executes it.
module _ (read_all : Bytes → Result Bytes (List (List Bytes)))
    (templates : Bytes → Result Bytes (InstallParams → Result Bytes Bytes)) (px_tag : Bytes) where
  unfoldable pub split_csv : Bytes → Result SpecError (List Bytes)
  split_csv s = one_record (read_all s)

  unfoldable pub drives_of : InstallParams → Result SpecError Bytes
  drives_of p =
      if not (str_eq p.drives [])
      then mapped (write_drives []) (split_csv p.drives)
      else if not (str_eq p.force [])
      then ok (lit "\"-A\", \"-f\"")
      else ok (lit "\"-a\", \"-f\"")

  unfoldable pub env_of : InstallParams → Result SpecError Bytes
  env_of p =
      if not (str_eq p.env_entries [])
      then mapped (write_env []) (split_csv p.env_entries)
      else ok []

  unfoldable pub image_of : InstallParams → Bytes
  image_of p =
      if str_eq p.px_image []
      then (if not (has_prefix p.kind_of_install (lit "dock"))
          then lit "portworx/oci-monitor:" ++ px_tag
          else lit "portworx/px-enterprise:" ++ px_tag)
      else p.px_image

  -- The parameters once the drives, the environment and the version are known.
  unfoldable pub with_version : InstallParams → Bytes → Bytes → KubeVer → InstallParams
  with_version p drives env k = record p {
    drives = drives;
    env_entries = env;
    is_run_c = not (has_prefix p.kind_of_install (lit "dock"));
    master_less = not (str_eq p.master (lit "true"));
    tmpl_ver = lit "v2";
    need_controller = str_eq p.openshift (lit "true") || k.is_gke;
    kube_ver = k.ver;
    rbac_auth_ver = k.rbac_auth_ver;
    px_image = image_of p;
  }

  abbrev pub checked_version :
      InstallParams → Bytes → Bytes → Result VersionError KubeVer → Result SpecError InstallParams
  checked_version p drives env (err e) = err (bad_version e)
  checked_version p drives env (ok k) = ok (with_version p drives env k)

  abbrev pub with_env :
      InstallParams → Bytes → Result SpecError Bytes → Result SpecError InstallParams
  with_env p drives (err e) = err e
  with_env p drives (ok env) = checked_version p drives env (parse_kube_ver p.kube_ver)

  abbrev pub with_drives : InstallParams → Result SpecError Bytes → Result SpecError InstallParams
  with_drives p (err e) = err e
  with_drives p (ok drives) = with_env p drives (env_of p)

  -- The parameters as the template gets them.
  unfoldable pub fix_params : InstallParams → Result SpecError InstallParams
  fix_params p = with_drives p (drives_of p)

  abbrev pub execute :
      (InstallParams → Result Bytes Bytes) → Result SpecError InstallParams → Result SpecError Bytes
  execute t (err e) = err e
  execute t (ok p) = elim (t p) [ err m ↦ err (message m) | ok text ↦ ok text ]

  abbrev pub with_template :
      InstallParams → Result Bytes (InstallParams → Result Bytes Bytes) → Result SpecError Bytes
  with_template p (err m) = err (message m)
  with_template p (ok t) = execute t (fix_params p)

  unfoldable pub generate_install_spec : Bytes → InstallParams → Result SpecError Bytes
  generate_install_spec template_file p = with_template p (templates template_file)
