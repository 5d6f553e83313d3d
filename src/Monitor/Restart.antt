-- ===== src/Monitor/Restart.antt =====
-- `isRestartRequired` of px-oci-mon/main.go: does the output of `px-runc install` call for a
-- restart of the service?
pub mod Mounts
pub mod Verdict
use px_installer.Base.{
  ℕ, zero, suc, ◌+◌, Bool, true, false, not, ◌||◌, Option, none, some, List, if◌then◌else◌, any,
  length, take, drop, Bytes, lit, has_prefix, index, fields, ◌++◌,
}
use px_installer.Base.Result.{Result, ok, err}
use px_installer.World.{World}
use px_installer.World.Monad.{M, pure, ◌>>=◌}

abbrev positive : Option ℕ → Option ℕ
positive none = none
positive (some zero) = none
positive (some (suc i)) = some (suc i)

-- `strings.Index(s, sub)` where it is above 0, which is what each test here asks.
unfoldable pub index_above_0 : Bytes → Bytes → Option ℕ
index_above_0 s sub = positive (index s sub)

abbrev is_some {ℓ} : {A : Type ℓ} → Option A → Bool
is_some none = false
is_some (some _) = true

-- A list of mounts behind a marker: not there, with no end, or its words.
pub data Section : Type 0 where
  absent unclosed : Section
  mounts : List Bytes → Section

unfoldable pub section_body : Bytes → Section
section_body tail = elim (index_above_0 tail (lit "}")) [
  | none ↦ unclosed
  | some end ↦ mounts (fields (take end tail))
]

-- The section behind `marker`, and the text from its body on (the whole text if there is none).
unfoldable pub section : Bytes → Bytes → Section × Bytes
section marker s = elim (index_above_0 s marker) [
  | none ↦ (absent, s)
  | some i ↦ let tail = drop (i + length marker) s in (section_body tail, tail)
]

-- Does the section end the search with `true`?
unfoldable pub is_foreign : Bytes → Section → Bool
is_foreign dir absent = false
is_foreign dir unclosed = true
is_foreign dir (mounts ps) = any (λ p. not (has_prefix p dir)) ps

abbrev pub add_marker : Bytes
add_marker = lit " Updated mounts: add{"

abbrev pub rm_marker : Bytes
rm_marker = lit " rm{"

unfoldable pub mounts_changed : Bytes → Bytes → Bool
mounts_changed dir s =
    let (added, rest) = section add_marker s in
    is_foreign dir added || is_foreign dir (section rm_marker rest).0

abbrev with_root : Bytes → Result Bytes Bytes → Bool
with_root s (err e) = true
with_root s (ok root) = mounts_changed (root ++ lit "/pods/") s

-- What the SPEC line of the log decides by itself.
unfoldable pub decided : Bytes → Option Bool
unfolding index_above_0
decided s =
    if is_some (index_above_0 s (lit "SPEC UNCHANGED "))
    then some false
    else if is_some (index_above_0 s (lit "SPEC CREATED "))
    then some true
    else none

abbrev unless_decided : Option Bool → Bool → Bool
unless_decided none answer = answer
unless_decided (some b) answer = b

-- `kubelet_root` is what `getKubernetesRootDirFn()` returns, an error as its message.
unfoldable pub is_restart_required : Result Bytes Bytes → Bytes → Bool
unfolding decided mounts_changed is_foreign section section_body index_above_0
is_restart_required kubelet_root s = unless_decided (decided s) (with_root s kubelet_root)

abbrev pub answer_or_ask : M (Result Bytes Bytes) → Bytes → Option Bool → M Bool
answer_or_ask root_dir s (some answer) = pure answer
answer_or_ask root_dir s none = do root ← root_dir; pure (with_root s root)

-- As `isRestartRequired` is called: the kubelet is asked for only where its answer counts.
unfoldable pub ask_restart_required : M (Result Bytes Bytes) → Bytes → M Bool
ask_restart_required root_dir s = answer_or_ask root_dir s (decided s)
