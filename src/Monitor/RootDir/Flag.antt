-- ===== src/Monitor/RootDir/Flag.antt =====
-- The root directory in a command line of the kubelet.
use px_installer.Base.{
  ℕ, true, false, none, some, [], ◌∷◌, ◌++◌, ◌≡◌, ◌≢◌, refl, arith, ◌==◌, All, Bytes, lit,
  has_prefix, has_prefix-append,
}
use px_installer.Base.Search.{drop-length}
use px_installer.Monitor.RootDir.{is_blank, word, root_flag, value_at, find_root}

-- The text ends or goes on with a blank.
abbrev pub AtBlank : Bytes → Type 0
AtBlank [] = Unit
AtBlank (c ∷ s) = is_blank c ≡ true

word-append :
    (dir rest : Bytes) → All (λ c. is_blank c ≡ false) dir → AtBlank rest → word (dir ++ rest) ≡ dir
unfolding word
word-append [] [] a b = refl
word-append [] (c ∷ rest) a b = rw b refl
word-append (c ∷ dir) rest a b = rw (a.0, word-append dir rest a.1 b) refl

value_at-flag :
    (dir rest : Bytes)
    → dir ≢ []
    → All (λ c. is_blank c ≡ false) dir
    → AtBlank rest
    → value_at b' ' (root_flag ++ (dir ++ rest)) ≡ some dir
unfolding value_at
value_at-flag [] rest ne a b = absurd (ne refl)
value_at-flag (c ∷ dir) rest ne a b =
    rw
      (
        has_prefix-append root_flag ((c ∷ dir) ++ rest),
        drop-length root_flag ((c ∷ dir) ++ rest),
        word-append (c ∷ dir) rest a b,
      )
      (unfold is_blank in refl)

no_dash : (c : ℕ) (s : Bytes) → (c == b'-') ≡ false → has_prefix (c ∷ s) root_flag ≡ false
unfolding has_prefix lit
no_dash c s h = ground arith

value_at-no_flag : (c : ℕ) (s : Bytes) → has_prefix s root_flag ≡ false → value_at c s ≡ none
unfolding value_at
value_at-no_flag c s h = ground arith

-- Behind a text with no dash, a blank and `--root-dir=` with a word give that word, up to the next
-- blank or the end.
find_root-flag :
    (before dir rest : Bytes)
    → All (λ c. (c == b'-') ≡ false) before
    → dir ≢ []
    → All (λ c. is_blank c ≡ false) dir
    → AtBlank rest
    → find_root (before ++ (b' ' ∷ (root_flag ++ (dir ++ rest)))) ≡ some dir
unfolding find_root
find_root-flag [] dir rest n ne a b = rw (value_at-flag dir rest ne a b) refl
find_root-flag (c ∷ []) dir rest n ne a b =
    rw
      (
        value_at-no_flag c (b' ' ∷ (root_flag ++ (dir ++ rest)))
            (no_dash b' ' (root_flag ++ (dir ++ rest)) refl),
        value_at-flag dir rest ne a b,
      )
      refl
find_root-flag (c ∷ d ∷ before) dir rest n ne a b =
    rw
      (value_at-no_flag c (d ∷ (before ++ (b' ' ∷ (root_flag ++ (dir ++ rest)))))
        (no_dash d (before ++ (b' ' ∷ (root_flag ++ (dir ++ rest)))) n.1.0))
      (find_root-flag (d ∷ before) dir rest n.1 ne a b)
