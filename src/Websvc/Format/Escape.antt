-- ===== src/Websvc/Format/Escape.antt =====
-- An escaped text survives `Fprintf`.
use px_installer.Base.{
  ℕ, zero, suc, ◌≤◌, false, [], ◌∷◌, ◌++◌, ◌≡◌, refl, sym, ap, ◌∙◌, arith, ◌==◌, All, length, Bytes,
  Bool-cases, inl, inr, ==_iff,
}
use px_installer.Websvc.Format.{escape, format_loop, print_format}

-- A text with no percent sign.
abbrev pub IsPlain : Bytes → Type 0
IsPlain s = All (λ c. (c == b'%') ≡ false) s

module _ (directive : Bytes → Bytes × ℕ) where
  loop-nil : (fuel : ℕ) → format_loop directive fuel [] ≡ []
  unfolding format_loop
  loop-nil zero = refl
  loop-nil (suc fuel) = refl

  loop-byte :
      (fuel c : ℕ) (s : Bytes)
      → (c == b'%') ≡ false
      → format_loop directive (suc fuel) (c ∷ s) ≡ c ∷ format_loop directive fuel s
  unfolding format_loop
  loop-byte fuel c [] h = rw (h, loop-nil fuel) refl
  loop-byte fuel c (d ∷ s) h = rw h refl

  loop-percent :
      (fuel : ℕ) (s : Bytes)
      → format_loop directive (suc fuel) (b'%' ∷ b'%' ∷ s) ≡ b'%' ∷ format_loop directive fuel s
  unfolding format_loop
  loop-percent fuel s = refl

  loop-plain :
      (fuel : ℕ) (after : Bytes)
      → IsPlain after
      → length after ≤ fuel
      → format_loop directive fuel after ≡ after
  loop-plain fuel [] p h = loop-nil fuel
  loop-plain zero (c ∷ after) p h = absurd (omega arith)
  loop-plain (suc fuel) (c ∷ after) p h =
      loop-byte fuel c after p.0 ∙ ap (◌∷◌ c) (loop-plain fuel after p.1 (omega arith))

  escape-longer :
      (c : ℕ) (s after : Bytes)
      → suc (length (escape s ++ after)) ≤ length (escape (c ∷ s) ++ after)
  unfolding escape
  escape-longer c s after = ground arith

  loop-escape :
      (fuel : ℕ) (s after : Bytes)
      → IsPlain after
      → length (escape s ++ after) ≤ fuel
      → format_loop directive fuel (escape s ++ after) ≡ s ++ after
  unfolding escape
  loop-escape fuel [] after p h = loop-plain fuel after p h
  loop-escape zero (c ∷ s) after p h = absurd (omega (arith, escape-longer c s after))
  loop-escape (suc fuel) (c ∷ s) after p h = elim (Bool-cases (c == b'%')) [
    | inl percent ↦ rw percent (
        loop-percent fuel (escape s ++ after)
        ∙ ap (◌∷◌ b'%') (loop-escape fuel s after p (omega (arith, escape-longer c s after)))
        ∙ ap (λ x. x ∷ (s ++ after)) (sym ((==_iff c b'%').0 percent)))
    | inr other ↦ rw other (
        loop-byte fuel c (escape s ++ after) other
        ∙ ap (◌∷◌ c) (loop-escape fuel s after p (omega (arith, escape-longer c s after))))
  ]

  loop-before :
      (fuel : ℕ) (before s after : Bytes)
      → IsPlain before
      → IsPlain after
      → length (before ++ (escape s ++ after)) ≤ fuel
      → format_loop directive fuel (before ++ (escape s ++ after)) ≡ before ++ (s ++ after)
  loop-before fuel [] s after b p h = loop-escape fuel s after p h
  loop-before zero (c ∷ before) s after b p h = absurd (omega arith)
  loop-before (suc fuel) (c ∷ before) s after b p h =
      loop-byte fuel c (before ++ (escape s ++ after)) b.0
      ∙ ap (◌∷◌ c) (loop-before fuel before s after b.1 p (omega arith))

  -- Between texts with no percent sign, an escaped text is printed as it was before the escape.
  pub print_format-escape :
      (before s after : Bytes)
      → IsPlain before
      → IsPlain after
      → print_format directive (before ++ (escape s ++ after)) ≡ before ++ (s ++ after)
  unfolding print_format
  print_format-escape before s after b p = loop-before _ before s after b p (omega arith)
