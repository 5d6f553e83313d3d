-- ===== src/Tests/Units.antt =====
-- Labels, mounts, versions and the mounted directories.
use px_installer.Base.{
  ℕ, ◌≤◌, Bool, true, false, none, List, [], ◌∷◌, ◌++◌, ◌≡◌, ◌⊎◌, ◌↔◌, refl, arith, if◌then◌else◌,
  length, All, Bytes, lit, str_eq, to_lower, lower, has_prefix, trim_space, str_lt,
}
use px_installer.Base.Result.{Result, ok, err}
use px_installer.World.{Node, Pod}
use px_installer.Kubernetes.{
  is_px_disabled, is_uninstall_requested, lookup, enablement_key, chosen_pods, in_array,
}
use px_installer.Inspect.{format_mounts}
use px_installer.Inspect.Mounts.{Formatted, format_mounts-Formatted}
use px_installer.Websvc.KubeVer.{
  KubeVer, v_a1, is_digit, is_lead, dotted, with_rbac, parse_kube_ver,
}
use px_installer.Websvc.KubeVer.Shape.{
  IsNumber, IsVersion, parse_kube_ver-dotted, parse_kube_ver-IsVersion,
}
use px_installer.Websvc.KubeVer.Rbac.{with_rbac_two_digits}
use px_installer.Monitor.Mounted.{validate_mounted, IsMounted}
use px_installer.Monitor.Mounted.Points.{validate_mounted_iff}
use px_installer.Tests.Host.{my_container, labelled_node}

abbrev removing_node : Node
removing_node = labelled_node enablement_key (lit "Remove")

removing_node-disabled :
    (is_uninstall_requested removing_node ≡ true) × (is_px_disabled removing_node ≡ true)
unfolding is_uninstall_requested is_px_disabled in_array lookup str_eq to_lower lower lit
removing_node-disabled = (refl, refl)

abbrev pod : Bytes → Pod
pod name = record { namespace = lit "default"; name = name }

abbrev managed : Pod → Bool
managed p = str_eq p.name (lit "db")

abbrev two_pods : List Pod
two_pods = pod (lit "web") ∷ pod (lit "db") ∷ []

chosen_two_pods : chosen_pods managed false two_pods ≡ pod (lit "db") ∷ []
unfolding chosen_pods str_eq lit
chosen_two_pods = refl

format_mounts-Formatted_example : Formatted my_container (format_mounts my_container)
format_mounts-Formatted_example = format_mounts-Formatted my_container

-- "v1.8.7-gke.1"
abbrev gke_text : Bytes
gke_text = lit "v" ++ (dotted (lit "1") (lit "8") (lit "7") ++ lit "-gke.1")

gke_trimmed : trim_space gke_text ≡ gke_text
unfolding trim_space lit
gke_trimmed = refl

one_digit : IsNumber (lit "1") × IsNumber (lit "8") × IsNumber (lit "7")
unfolding lit is_digit
one_digit = ((λ e. cc, (refl, tt)), (λ e. cc, (refl, tt)), (λ e. cc, (refl, tt)))

parse_kube_ver-dotted_example :
    parse_kube_ver gke_text
    ≡ ok
        (with_rbac (dotted (lit "1") (lit "8") (lit "7")) (has_prefix (lit "-gke.1") (lit "-gke.")))
parse_kube_ver-dotted_example =
    parse_kube_ver-dotted gke_text (lit "v") (lit "1") (lit "8") (lit "7") (lit "-gke.1")
      gke_trimmed (unfold lit is_lead in (refl, tt)) one_digit.0 one_digit.1 one_digit.2
      (unfold lit is_digit in refl)

abbrev gke_ver : KubeVer
gke_ver = record {
  ver = dotted (lit "1") (lit "8") (lit "7");
  rbac_auth_ver = lit "v1";
  is_gke = true;
}

gke_parsed : parse_kube_ver gke_text ≡ ok gke_ver
unfolding parse_kube_ver lit trim_space str_eq str_lt has_prefix
gke_parsed = refl

parse_kube_ver-IsVersion_example :
    IsVersion gke_ver.ver
    ⊎ ((length (trim_space gke_text) ≤ 1)
        × (gke_ver.ver ≡ trim_space gke_text)
        × (gke_ver.is_gke ≡ false))
parse_kube_ver-IsVersion_example = parse_kube_ver-IsVersion gke_text gke_parsed

with_rbac_two_digits_example :
    (with_rbac (b'1' ∷ b'.' ∷ b'1' ∷ b'0' ∷ lit ".2") false).rbac_auth_ver ≡ v_a1
with_rbac_two_digits_example =
    with_rbac_two_digits b'1' b'0' (lit ".2") (unfold is_digit in refl) (omega arith)

-- "/data" is on another device than "/", and nothing else is there.
abbrev devices : Bytes → Result Bytes ℕ
devices p =
    if str_eq p (lit "/")
    then ok 1
    else if str_eq p (lit "/data")
    then ok 2
    else err (lit "no such file")

validate_mounted_iff_example :
    (validate_mounted devices (lit "/data" ∷ lit "/x" ∷ []) ≡ none)
    ↔ All (IsMounted devices 1) (lit "/data" ∷ lit "/x" ∷ [])
validate_mounted_iff_example =
    validate_mounted_iff devices 1 (lit "/data" ∷ lit "/x" ∷ []) (unfold str_eq lit in refl)
