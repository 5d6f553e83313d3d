-- ===== src/Websvc/KubeVer.antt =====
-- `parseKubeVer` and `kbVerRegex` of px-spec-websvc/px-spec-websvc.go.
pub mod Shape
pub mod Rbac
pub mod Rejected
use px_installer.Base.{
  ℕ, Bool, true, false, ◌&&◌, ◌||◌, Option, none, some, List, [], ◌∷◌, ◌++◌, leb, ltb, ◌==◌,
  if◌then◌else◌, length, Bytes, lit, str_eq, has_prefix, trim_space, trim_left, str_lt,
}
use px_installer.Base.Result.{Result, ok, err}

abbrev pub v_a1 : Bytes
v_a1 = lit "v1alpha1"

abbrev pub v_b1 : Bytes
v_b1 = lit "v1beta1"

pub record KubeVer : Type 0 where
  pub ver : Bytes
  pub rbac_auth_ver : Bytes
  pub is_gke : Bool

-- The error carries the text that its message quotes.
pub data VersionError : Type 0 where
  invalid_version : Bytes → VersionError

unfoldable pub is_digit : ℕ → Bool
is_digit c = leb b'0' c && leb c b'9'

-- `[v\s]`: the class `\s` is tab, newline, form feed, carriage return and space.
unfoldable pub is_lead : ℕ → Bool
is_lead c = c == b'v' || c == 9 || c == 10 || c == 12 || c == 13 || c == b' '

-- The longest prefix of bytes that pass, and the rest.
unfoldable pub span : (ℕ → Bool) → Bytes → Bytes × Bytes
span p [] = ([], [])
span p (c ∷ s) = let (run, rest) = span p s in if p c then (c ∷ run, rest) else ([], c ∷ s)

-- `X+`, at least one byte.
abbrev nonempty : Bytes × Bytes → Option (Bytes × Bytes)
nonempty ([], rest) = none
nonempty (c ∷ run, rest) = some (c ∷ run, rest)

-- `\d+`, and what follows it.
unfoldable pub number : Bytes → Option (Bytes × Bytes)
unfolding span is_digit
number s = nonempty (span is_digit s)

-- `\.\d+`, and what follows it.
unfoldable pub dot_number : Bytes → Option (Bytes × Bytes)
unfolding number
dot_number [] = none
dot_number (c ∷ s) = if c == b'.' then number s else none

abbrev pub dotted : Bytes → Bytes → Bytes → Bytes
dotted major minor patch = major ++ (b'.' ∷ (minor ++ (b'.' ∷ patch)))

infixl 5 ◌>>=◌
abbrev ◌>>=◌ : {A B : Type 0} → Option A → (A → Option B) → Option B
none >>= f = none
some a >>= f = f a

-- `kbVerRegex.FindStringSubmatch`: the groups 1 and 2. No byte of `[v\s]` is a digit and a dot is
-- no digit, so the greedy match is the only one; `.` stops at a newline.
unfoldable pub kb_ver_match : Bytes → Option (Bytes × Bytes)
kb_ver_match s = do
  (major, s1) ← number (trim_left is_lead s)
  (minor, s2) ← dot_number s1
  (patch, rest) ← dot_number s2
  some (dotted major minor patch, (span (λ c. ltb c 10 || ltb 10 c) rest).0)

-- The choice of the RBAC API version.
unfoldable pub rbac_version : Bytes → Bytes
rbac_version ver =
    if str_eq ver [] || has_prefix ver (lit "1.7.")
    then v_b1
    else if str_lt ver (lit "1.7.")
    then v_a1
    else lit "v1"

-- The last step: no v1alpha1 on GKE.
unfoldable pub with_rbac : Bytes → Bool → KubeVer
with_rbac ver is_gke =
    let rbac = rbac_version ver in
    record {
      ver = ver;
      rbac_auth_ver = if is_gke && str_eq rbac v_a1 then v_b1 else rbac;
      is_gke = is_gke;
    }

abbrev of_match : Bytes → Option (Bytes × Bytes) → Result VersionError KubeVer
of_match ver none = err (invalid_version ver)
of_match ver (some (number, suffix)) = ok (with_rbac number (has_prefix suffix (lit "-gke.")))

-- The argument is trimmed already.
unfoldable pub parse_trimmed : Bytes → Result VersionError KubeVer
parse_trimmed ver =
    if ltb 1 (length ver) then of_match ver (kb_ver_match ver) else ok (with_rbac ver false)

unfoldable pub parse_kube_ver : Bytes → Result VersionError KubeVer
unfolding parse_trimmed kb_ver_match number dot_number is_lead with_rbac rbac_version
parse_kube_ver ver = parse_trimmed (trim_space ver)
