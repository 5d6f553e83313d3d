-- ===== src/Websvc/Format.antt =====
-- `fmt.Fprintf(w, content)` with no further arguments, and the escape that goes before it.
pub mod Escape
use px_installer.Base.{
  ℕ, zero, suc, ◌+◌, Bool, List, [], ◌∷◌, ◌++◌, if◌then◌else◌, ◌==◌, length, drop, Bytes, lit,
}

-- `strings.Replace(s, "%", "%%", -1)`
unfoldable pub escape : Bytes → Bytes
escape [] = []
escape (c ∷ s) = let rest = escape s in if c == b'%' then b'%' ∷ b'%' ∷ rest else c ∷ rest

-- `%%` prints a percent sign. Of any other directive, `directive` says what package fmt writes for
-- it, and how many bytes behind the percent sign belong to it. Fuel: each round takes a byte.
module _ (directive : Bytes → Bytes × ℕ) where
  unfoldable pub format_loop : ℕ → Bytes → Bytes
  format_loop zero s = []
  format_loop (suc fuel) [] = []
  format_loop (suc fuel) (c ∷ []) = if c == b'%' then (directive []).0 else c ∷ []
  format_loop (suc fuel) (c ∷ d ∷ s) =
      let plain = c ∷ format_loop fuel (d ∷ s) in
      let percent = b'%' ∷ format_loop fuel s in
      let (text, n) = directive (d ∷ s) in
      let other = text ++ format_loop fuel (drop n (d ∷ s)) in
      if c == b'%' then (if d == b'%' then percent else other) else plain

  unfoldable pub print_format : Bytes → Bytes
  print_format s = format_loop (length s) s
