-- ===== src/Websvc/KubeVer/Shape.antt =====
-- What the version parser accepts, and what it makes of it.
use px_installer.Base.{
  ℕ, ◌≤◌, ◌<◌, Bool, true, false, Option, none, some, [], ◌∷◌, ◌++◌, ◌≡◌, ◌≢◌, ◌⊎◌, inl, inr, refl,
  sym, ap, ◌∙◌, arith, ◌||◌, ltb, Bool-cases, length, length-append, All, Bytes, lit, has_prefix,
  trim_space, trim_left, append_assoc, Option-cases,
}
use px_installer.Base.Result.{ok}
use px_installer.Websvc.KubeVer.{
  KubeVer, is_digit, is_lead, span, nonempty, number, dot_number, dotted, ◌>>=◌, kb_ver_match,
  with_rbac, of_match, parse_trimmed, parse_kube_ver,
}

-- A nonempty run of digits.
abbrev pub IsNumber : Bytes → Type 0
IsNumber n = (n ≢ []) × All (λ c. is_digit c ≡ true) n

-- `\d+\.\d+\.\d+`
pub record IsVersion (v : Bytes) : Type 0 where
  pub major : Bytes
  pub minor : Bytes
  pub patch : Bytes
  pub major_number : IsNumber major
  pub minor_number : IsNumber minor
  pub patch_number : IsNumber patch
  pub reads : v ≡ dotted major minor patch

>>=-eq-some :
    {A B : Type 0} (found : Option A) (rest : A → Option B) {y : B}
    → (found >>= rest) ≡ some y
    → (x : A) × (found ≡ some x) × (rest x ≡ some y)
>>=-eq-some (some x) rest e = (x, refl, e)
>>=-eq-some none rest e = cc

span-All : (p : ℕ → Bool) (s : Bytes) → All (λ c. p c ≡ true) (span p s).0
unfolding span
span-All p [] = tt
span-All p (c ∷ s) = elim (Bool-cases (p c)) [ inl e ↦ rw e (e, span-All p s) | inr e ↦ rw e tt ]

number-IsNumber : (s n rest : Bytes) → number s ≡ some (n, rest) → IsNumber n
unfolding number
number-IsNumber s n rest h = ground (arith, span-All is_digit s)

dot_number-IsNumber : (s n rest : Bytes) → dot_number s ≡ some (n, rest) → IsNumber n
unfolding dot_number
dot_number-IsNumber [] n rest h = cc
dot_number-IsNumber (c ∷ s) n rest h = ground (arith, span-All is_digit s)

kb_ver_match-IsVersion :
    (s : Bytes) {n suffix : Bytes} → kb_ver_match s ≡ some (n, suffix) → IsVersion n
unfolding kb_ver_match
kb_ver_match-IsVersion s h =
    let ((major, s1), e1, h1) = >>=-eq-some (number (trim_left is_lead s)) _ h in
    let ((minor, s2), e2, h2) = >>=-eq-some (dot_number s1) _ h1 in
    let ((patch, s3), e3, h3) = >>=-eq-some (dot_number s2) _ h2 in
    record {
      major = major;
      minor = minor;
      patch = patch;
      major_number = number-IsNumber (trim_left is_lead s) major s1 e1;
      minor_number = dot_number-IsNumber s1 minor s2 e2;
      patch_number = dot_number-IsNumber s2 patch s3 e3;
      reads = ground arith;
    }

-- The text does not begin with a byte that passes.
abbrev pub Stops : (ℕ → Bool) → Bytes → Type 0
Stops p [] = Unit
Stops p (c ∷ s) = p c ≡ false

span-append :
    (p : ℕ → Bool) (run rest : Bytes)
    → All (λ c. p c ≡ true) run
    → Stops p rest
    → span p (run ++ rest) ≡ (run, rest)
unfolding span
span-append p [] [] a h = refl
span-append p [] (c ∷ rest) a h = rw h
span-append p (c ∷ run) rest a h = rw (a.0, span-append p run rest a.1 h)

trim_left-append :
    (p : ℕ → Bool) (lead rest : Bytes)
    → All (λ c. p c ≡ true) lead
    → Stops p rest
    → trim_left p (lead ++ rest) ≡ rest
unfolding trim_left
trim_left-append p [] [] a h = refl
trim_left-append p [] (c ∷ rest) a h = rw h
trim_left-append p (c ∷ lead) rest a h = rw (a.0) (trim_left-append p lead rest a.1 h)

number-append :
    (n rest : Bytes) → IsNumber n → Stops is_digit rest → number (n ++ rest) ≡ some (n, rest)
unfolding number
number-append [] rest h k = absurd (h.0 refl)
number-append (c ∷ n) rest h k = ap nonempty (span-append is_digit (c ∷ n) rest h.1 k)

dot_number-append :
    (n rest : Bytes)
    → IsNumber n
    → Stops is_digit rest
    → dot_number (b'.' ∷ (n ++ rest)) ≡ some (n, rest)
unfolding dot_number
dot_number-append n rest h k = number-append n rest h k

-- A digit is none of `[v\s]`.
Stops-lead : (n rest : Bytes) → IsNumber n → Stops is_lead (n ++ rest)
unfolding is_digit is_lead
Stops-lead [] rest h = absurd (h.0 refl)
Stops-lead (c ∷ n) rest h = let d = h.1.0 in ground arith

kb_ver_match-dotted :
    (lead major minor patch suffix : Bytes)
    → All (λ c. is_lead c ≡ true) lead
    → IsNumber major
    → IsNumber minor
    → IsNumber patch
    → Stops is_digit suffix
    → kb_ver_match (lead ++ (dotted major minor patch ++ suffix))
      ≡ some (dotted major minor patch, (span (λ c. ltb c 10 || ltb 10 c) suffix).0)
unfolding kb_ver_match is_digit
kb_ver_match-dotted lead major minor patch suffix l a b c h =
    let tail3 = b'.' ∷ (patch ++ suffix) in
    let tail2 = b'.' ∷ (minor ++ tail3) in
    let split : dotted major minor patch ++ suffix ≡ major ++ tail2 = simp append_assoc in
    rw (
      split,
      trim_left-append is_lead lead (major ++ tail2) l (Stops-lead major tail2 a),
      number-append major tail2 a refl,
      dot_number-append minor tail3 b refl,
      dot_number-append patch suffix c h,
    )

-- A prefix of passing bytes is seen in the longest run of such bytes.
has_prefix-span :
    (p : ℕ → Bool) (s prefix : Bytes)
    → All (λ c. p c ≡ true) prefix
    → has_prefix (span p s).0 prefix ≡ has_prefix s prefix
unfolding has_prefix span
has_prefix-span p s [] a = refl
has_prefix-span p [] (x ∷ prefix) a = refl
has_prefix-span p (c ∷ s) (x ∷ prefix) a = ground (arith, has_prefix-span p s prefix a.1, a.0)

length-dotted :
    (lead major minor patch suffix : Bytes)
    → 1 < length (lead ++ (dotted major minor patch ++ suffix))
length-dotted lead major minor patch suffix = omega (
  arith,
  length-append lead (dotted major minor patch ++ suffix),
  length-append (dotted major minor patch) suffix,
  length-append major (b'.' ∷ (minor ++ (b'.' ∷ patch))),
  length-append minor (b'.' ∷ patch),
)

pub parse_kube_ver_lem : (ver : Bytes) → parse_kube_ver ver ≡ parse_trimmed (trim_space ver)
unfolding parse_kube_ver
parse_kube_ver_lem ver = refl

parse_trimmed_long : (s : Bytes) → 1 < length s → parse_trimmed s ≡ of_match s (kb_ver_match s)
unfolding parse_trimmed
parse_trimmed_long s h = ground arith

-- A text that, with spaces trimmed, is any of `v` and spaces, then three nonempty numbers with
-- dots between, then a suffix that does not go on with a digit, is accepted. The version is the
-- three numbers, the RBAC version follows from them, and GKE is seen exactly by a suffix that
-- begins with "-gke.".
pub parse_kube_ver-dotted :
    (ver lead major minor patch suffix : Bytes)
    → trim_space ver ≡ lead ++ (dotted major minor patch ++ suffix)
    → All (λ c. is_lead c ≡ true) lead
    → IsNumber major
    → IsNumber minor
    → IsNumber patch
    → Stops is_digit suffix
    → parse_kube_ver ver
      ≡ ok (with_rbac (dotted major minor patch) (has_prefix suffix (lit "-gke.")))
parse_kube_ver-dotted ver lead major minor patch suffix e l a b c h =
    parse_kube_ver_lem ver
    ∙ ap parse_trimmed e
    ∙ parse_trimmed_long _ (length-dotted lead major minor patch suffix)
    ∙ ap (of_match _) (kb_ver_match-dotted lead major minor patch suffix l a b c h)
    ∙ ap (λ g. ok (with_rbac (dotted major minor patch) g))
        (has_prefix-span _ suffix (lit "-gke.") dash_gke)
  where
    dash_gke : All (λ c. (ltb c 10 || ltb 10 c) ≡ true) (lit "-gke.")
    dash_gke = unfold lit in (refl, (refl, (refl, (refl, (refl, tt)))))

parse_trimmed-IsVersion :
    (s : Bytes) {k : KubeVer}
    → parse_trimmed s ≡ ok k
    → IsVersion k.ver ⊎ ((length s ≤ 1) × (k.ver ≡ s) × (k.is_gke ≡ false))
unfolding parse_trimmed with_rbac
parse_trimmed-IsVersion s {k} e = elim (Bool-cases (ltb 1 (length s))) [
  | inl long ↦ elim (Option-cases (kb_ver_match s)) [
    | inl fails ↦ absurd (ground arith)
    | inr ((n, suffix), m) ↦
        let same : k.ver ≡ n = ground arith in inl (rw same (kb_ver_match-IsVersion s m))
  ]
  | inr short ↦ inr (ground arith, ground arith, ground arith)
]

-- Whatever is accepted is three dotted numbers, unless the trimmed text has at most one byte: that
-- is taken as it is.
pub parse_kube_ver-IsVersion :
    (ver : Bytes) {k : KubeVer}
    → parse_kube_ver ver ≡ ok k
    → IsVersion k.ver
      ⊎ ((length (trim_space ver) ≤ 1) × (k.ver ≡ trim_space ver) × (k.is_gke ≡ false))
parse_kube_ver-IsVersion ver e =
    parse_trimmed-IsVersion (trim_space ver) (sym (parse_kube_ver_lem ver) ∙ e)
