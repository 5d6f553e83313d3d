-- ===== src/Monitor/RootDir.antt =====
-- `getKubernetesRootDir` of px-oci-mon/main.go.
pub mod Flag
use px_installer.Base.{
  ℕ, Bool, ◌&&◌, ◌||◌, Option, none, some, [], ◌∷◌, ◌++◌, if◌then◌else◌, Bytes, lit, has_prefix,
  drop, length, ◌==◌,
}
use px_installer.Base.Result.{Result, ok, err}
use px_installer.World.{Ran, Env}
use px_installer.World.Monad.{M, pure, ◌>>=◌}
use px_installer.Service.{run_external}
use px_installer.Monitor.Common.{oci_service}

-- `\s`
unfoldable pub is_blank : ℕ → Bool
is_blank c = c == 9 || c == 10 || c == 12 || c == 13 || c == b' '

-- `(\S+)` at the start of a text.
unfoldable pub word : Bytes → Bytes
word [] = []
word (c ∷ s) = let rest = word s in if is_blank c then [] else c ∷ rest

abbrev pub root_flag : Bytes
root_flag = lit "--root-dir="

abbrev nonempty : Bytes → Option Bytes
nonempty [] = none
nonempty (c ∷ s) = some (c ∷ s)

-- The value at a blank with the flag and a word behind it.
unfoldable pub value_at : ℕ → Bytes → Option Bytes
unfolding word is_blank
value_at c s =
    if is_blank c && has_prefix s root_flag
    then nonempty (word (drop (length root_flag) s))
    else none

abbrev or_else : Option Bytes → Option Bytes → Option Bytes
or_else none later = later
or_else (some v) later = some v

-- The group of the first match of `\s+--root-dir=(\S+)`.
unfoldable pub find_root : Bytes → Option Bytes
unfolding value_at
find_root [] = none
find_root (c ∷ s) = or_else (value_at c s) (find_root s)

abbrev root_or_default : Option Bytes → Bytes
root_or_default none = lit "/var/lib/kubelet"
root_or_default (some dir) = dir

abbrev root_of : Ran → Result Bytes Bytes
root_of ran = elim ran.error [
  | some message ↦ err (lit "Could not find kubelet service: " ++ message)
  | none ↦ ok (root_or_default (find_root ran.output))
]

unfoldable pub get_kubernetes_root_dir : Env → M (Result Bytes Bytes)
get_kubernetes_root_dir env = do
  ran ←
      run_external env oci_service (lit "/bin/ps")
        (lit "--no-headers" ∷ lit "-o" ∷ lit "cmd" ∷ lit "-C" ∷ lit "kubelet" ∷ [])
  pure (root_of ran)
