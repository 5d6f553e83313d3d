-- ===== src/Tests/Spec.antt =====
-- Parameters of an install spec.
use px_installer.Base.{
  true, false, List, [], ◌∷◌, ◌≡◌, refl, Bytes, lit, str_eq, join, has_prefix, trim_space, str_lt,
}
use px_installer.Base.Result.{Result, ok, err}
use px_installer.Websvc.KubeVer.{parse_kube_ver}
use px_installer.Websvc.Spec.{
  InstallParams, write_drives, trim, fix_params, drives_of, env_of, split_csv, with_version,
  image_of,
}
use px_installer.Websvc.Spec.Entries.{drive_options, write_drives-join, Sound, fix_params-Sound}

abbrev two_devices : List Bytes
two_devices = lit " /dev/sdb" ∷ lit " \"" ∷ lit "/dev/sdc" ∷ []

write_drives-join_example :
    write_drives [] two_devices ≡ join (lit ", ") (drive_options two_devices)
write_drives-join_example = write_drives-join two_devices

-- A reader for a single record of a single field.
abbrev one_field : Bytes → Result Bytes (List (List Bytes))
one_field s = ok ((s ∷ []) ∷ [])

abbrev no_template : Bytes → Result Bytes (InstallParams → Result Bytes Bytes)
no_template f = err (lit "no such file")

abbrev pub bare_params : InstallParams
bare_params = record {
  kind_of_install = [];
  drives = lit "/dev/sdb";
  kube_ver = lit "1.6.4";
  master = [];
  force = [];
  env_entries = [];
  openshift = lit "true";
  px_image = [];
  zero_storage = [];
  master_less = false;
  is_run_c = false;
  tmpl_ver = [];
  rbac_auth_ver = [];
  need_controller = false;
  start_stork = true;
  origin = [];
  others = [];
}

abbrev fixed : InstallParams
fixed = record bare_params {
  drives = lit "\"-s\", \"/dev/sdb\"";
  master_less = true;
  is_run_c = true;
  tmpl_ver = lit "v2";
  rbac_auth_ver = lit "v1alpha1";
  need_controller = true;
  px_image = lit "portworx/oci-monitor:1.2.16";
}

bare_params-fixed : fix_params one_field no_template (lit "1.2.16") bare_params ≡ ok fixed
unfolding fix_params drives_of env_of split_csv write_drives trim parse_kube_ver with_version
    image_of lit str_eq has_prefix trim_space str_lt
bare_params-fixed = refl

fix_params-Sound_example : Sound one_field no_template (lit "1.2.16") bare_params fixed
fix_params-Sound_example =
    fix_params-Sound one_field no_template (lit "1.2.16") bare_params bare_params-fixed
