-- ===== src/Websvc/KubeVer/Rejected.antt =====
-- What the version parser says of a version that it does not accept.
use px_installer.Base.{
  inl, inr, ◌≡◌, sym, ap, ◌∙◌, arith, ltb, length, Bool-cases, Option-cases, Bytes, trim_space,
}
use px_installer.Base.Result.{err}
use px_installer.Websvc.KubeVer.{
  VersionError, invalid_version, kb_ver_match, parse_trimmed, parse_kube_ver,
}
use px_installer.Websvc.KubeVer.Shape.{parse_kube_ver_lem}

parse_trimmed-err : (s : Bytes) {e : VersionError} → parse_trimmed s ≡ err e → e ≡ invalid_version s
unfolding parse_trimmed
parse_trimmed-err s h = elim (Bool-cases (ltb 1 (length s))) [
  | inl long ↦ elim (Option-cases (kb_ver_match s)) [
    | inl fails ↦ ground arith
    | inr ((n, suffix), m) ↦ absurd (ground arith)
  ]
  | inr short ↦ absurd (ground arith)
]

-- A version that is not accepted is quoted with its spaces trimmed.
pub parse_kube_ver-err :
    (ver : Bytes) {e : VersionError}
    → parse_kube_ver ver ≡ err e
    → parse_kube_ver ver ≡ err (invalid_version (trim_space ver))
parse_kube_ver-err ver h =
    h ∙ ap err (parse_trimmed-err (trim_space ver) (sym (parse_kube_ver_lem ver) ∙ h))
