-- ===== src/Websvc/KubeVer/Rbac.antt =====
-- Which RBAC API version a Kubernetes version gets.
use px_installer.Base.{
  ℕ, Bool, true, false, ◌∷◌, ◌≡◌, ◌≢◌, ◌⊎◌, arith, ◌==◌, ltb, ◌<◌, if◌then◌else◌, Bytes, lit,
  str_eq, str_lt, has_prefix, str_eq_iff, trim_space, Option, none, some,
}
use px_installer.Base.Result.{ok}
use px_installer.Websvc.KubeVer.{
  KubeVer, v_a1, v_b1, is_digit, rbac_version, with_rbac, of_match, parse_trimmed, parse_kube_ver,
  kb_ver_match,
}

-- The documented table: alpha before 1.7, beta at 1.7, v1 from 1.8 on.
rbac_version-digit :
    (m : ℕ) (p : Bytes)
    → rbac_version (b'1' ∷ b'.' ∷ m ∷ b'.' ∷ p)
      ≡ (if ltb m b'7' then v_a1 else if m == b'7' then v_b1 else lit "v1")
unfolding rbac_version lit str_eq str_lt has_prefix
rbac_version-digit m p = ground arith

rbac_version-two_digits :
    (m n : ℕ) (p : Bytes)
    → is_digit n ≡ true
    → rbac_version (b'1' ∷ b'.' ∷ m ∷ n ∷ p) ≡ (if ltb m b'7' then v_a1 else lit "v1")
unfolding rbac_version lit str_eq str_lt has_prefix is_digit
rbac_version-two_digits m n p h = ground arith

rbac_version_cases :
    (ver : Bytes)
    → (rbac_version ver ≡ v_b1) ⊎ ((rbac_version ver ≡ v_a1) ⊎ (rbac_version ver ≡ lit "v1"))
unfolding rbac_version
rbac_version_cases ver = ground arith

v_b1-ne-v_a1 : v_b1 ≢ v_a1
unfolding lit
v_b1-ne-v_a1 h = cc

v1-ne-v_a1 : lit "v1" ≢ v_a1
unfolding lit
v1-ne-v_a1 h = cc

with_rbac-ne-v_a1 : (ver : Bytes) → (with_rbac ver true).rbac_auth_ver ≢ v_a1
unfolding with_rbac
with_rbac-ne-v_a1 ver h =
    ground (arith, rbac_version_cases ver, str_eq_iff (rbac_version ver) v_a1, v_b1-ne-v_a1)

-- Kubernetes 1.x with one digit x, a dot and anything behind: alpha below 7, beta at 7, v1 above;
-- on GKE beta takes the place of alpha.
with_rbac_digit :
    (m : ℕ) (p : Bytes) (gke : Bool)
    → (with_rbac (b'1' ∷ b'.' ∷ m ∷ b'.' ∷ p) gke).rbac_auth_ver
      ≡ (if ltb m b'7' then (if gke then v_b1 else v_a1) else if m == b'7' then v_b1 else lit "v1")
unfolding with_rbac
with_rbac_digit m p gke = ground (
  arith,
  rbac_version-digit m p,
  str_eq_iff v_a1 v_a1,
  str_eq_iff v_b1 v_a1,
  str_eq_iff (lit "v1") v_a1,
  v_b1-ne-v_a1,
  v1-ne-v_a1,
)

-- The comparison is of texts: Kubernetes 1.10 up to 1.69, which have RBAC v1, get v1alpha1 off GKE.
pub with_rbac_two_digits :
    (m n : ℕ) (p : Bytes)
    → is_digit n ≡ true
    → m < b'7'
    → (with_rbac (b'1' ∷ b'.' ∷ m ∷ n ∷ p) false).rbac_auth_ver ≡ v_a1
unfolding with_rbac
with_rbac_two_digits m n p h k = ground (arith, rbac_version-two_digits m n p h)

of_match-gke :
    (ver : Bytes) (m : Option (Bytes × Bytes)) {k : KubeVer}
    → of_match ver m ≡ ok k
    → k.is_gke ≡ true
    → k.rbac_auth_ver ≢ v_a1
unfolding with_rbac
of_match-gke ver none e g h = cc
of_match-gke ver (some (number, suffix)) e g h = with_rbac-ne-v_a1 number (ground arith)

parse_trimmed-gke :
    (s : Bytes) {k : KubeVer} → parse_trimmed s ≡ ok k → k.is_gke ≡ true → k.rbac_auth_ver ≢ v_a1
unfolding parse_trimmed with_rbac
parse_trimmed-gke s {k} e g =
    let long : of_match s (kb_ver_match s) ≡ ok k = ground arith in
    of_match-gke s (kb_ver_match s) long g

-- An accepted GKE version never gets v1alpha1.
pub parse_kube_ver-gke :
    (ver : Bytes) {k : KubeVer}
    → parse_kube_ver ver ≡ ok k
    → k.is_gke ≡ true
    → k.rbac_auth_ver ≢ v_a1
unfolding parse_kube_ver
parse_kube_ver-gke ver e g = parse_trimmed-gke (trim_space ver) e g
