-- ===== src/Base/Text.antt =====
-- Go strings as their bytes, and what the program uses of package `strings`. A byte from 0x80 on
-- is neither a space nor a letter here.
use Prim.Native.Nat.{ℕ, suc, ◌+◌, ◌-◌}
use Prim.Native.Char.{code}
use Prim.Native.String.{String}
use mathlib.Core.Path.{◌≡◌, refl}
use mathlib.Core.Logic.{◌↔◌}
use mathlib.Core.Bool.{Bool, true, false, ◌&&◌, ◌||◌}
use mathlib.Core.Option
use mathlib.Core.Option.{Option, none, some}
use mathlib.Core.List.{List, [], ◌∷◌, ◌++◌, map, reverse}
use native.Mathlib.Omega.{arith}
use px_installer.Base.Tests.{leb, ◌==◌, if◌then◌else◌}

abbrev pub Bytes : Type 0
Bytes = List ℕ

abbrev codes : String → Bytes
codes String.[] = []
codes (String.◌∷◌ c s) = code c ∷ codes s

-- The bytes of an ASCII literal.
unfoldable pub lit : String → Bytes
lit s = codes s

-- `a == b` on strings.
unfoldable pub str_eq : Bytes → Bytes → Bool
str_eq [] [] = true
str_eq [] (y ∷ ys) = false
str_eq (x ∷ xs) [] = false
str_eq (x ∷ xs) (y ∷ ys) = x == y && str_eq xs ys

pub str_eq_iff : (a b : Bytes) → (str_eq a b ≡ true) ↔ (a ≡ b)
unfolding str_eq
str_eq_iff [] [] = ground arith
str_eq_iff [] (y ∷ ys) = ground arith
str_eq_iff (x ∷ xs) [] = ground arith
str_eq_iff (x ∷ xs) (y ∷ ys) = ground (arith, str_eq_iff xs ys)

pub str_eq_refl : (a : Bytes) → str_eq a a ≡ true
str_eq_refl a = (str_eq_iff a a).1 refl

-- `strings.HasPrefix(s, prefix)`
unfoldable pub has_prefix : Bytes → Bytes → Bool
has_prefix s [] = true
has_prefix [] (p ∷ ps) = false
has_prefix (c ∷ s) (p ∷ ps) = c == p && has_prefix s ps

pub has_prefix-append : (p s : Bytes) → has_prefix (p ++ s) p ≡ true
unfolding has_prefix
has_prefix-append [] s = refl
has_prefix-append (c ∷ p) s = ground (arith, has_prefix-append p s)

-- `strings.HasSuffix(s, suffix)`
unfoldable pub has_suffix : Bytes → Bytes → Bool
has_suffix s suffix = has_prefix (reverse s) (reverse suffix)

-- `strings.Index(s, sub)`, where `none` stands for -1.
unfoldable pub index : Bytes → Bytes → Option ℕ
index [] sub = if has_prefix [] sub then some 0 else none
index (c ∷ s) sub = if has_prefix (c ∷ s) sub then some 0 else Option.map suc (index s sub)

-- `strings.Contains(s, sub)` and `bytes.Contains`
unfoldable pub contains : Bytes → Bytes → Bool
contains [] sub = has_prefix [] sub
contains (c ∷ s) sub = has_prefix (c ∷ s) sub || contains s sub

unfoldable pub lower : ℕ → ℕ
lower c = if leb b'A' c && leb c b'Z' then c + 32 else c

-- `strings.ToLower`
unfoldable pub to_lower : Bytes → Bytes
unfolding lower
to_lower s = map lower s

unfoldable pub upper : ℕ → ℕ
upper c = if leb b'a' c && leb c b'z' then c - 32 else c

-- `strings.ToUpper`
unfoldable pub to_upper : Bytes → Bytes
unfolding upper
to_upper s = map upper s

-- `unicode.IsSpace` on a byte
unfoldable pub is_space : ℕ → Bool
is_space c = (leb 9 c && leb c 13) || c == b' '

-- `strings.TrimLeftFunc`
unfoldable pub trim_left : (ℕ → Bool) → Bytes → Bytes
trim_left p [] = []
trim_left p (c ∷ s) = let rest = trim_left p s in if p c then rest else c ∷ s

-- `strings.TrimSpace`
unfoldable pub trim_space : Bytes → Bytes
unfolding trim_left is_space
trim_space s = reverse (trim_left is_space (reverse (trim_left is_space s)))

abbrev pub flush : Bytes → List Bytes → List Bytes
flush [] words = words
flush (c ∷ word) words = (c ∷ word) ∷ words

-- The words of `word ++ s`, where `word` is the word read so far.
unfoldable pub fields_from : Bytes → Bytes → List Bytes
fields_from word [] = flush word []
fields_from word (c ∷ s) = elim (is_space c) [
  | true ↦ flush word (fields_from [] s)
  | false ↦ fields_from (word ++ c ∷ []) s
]

-- `strings.Fields`
unfoldable pub fields : Bytes → List Bytes
fields s = fields_from [] s

-- `a < b` on strings
unfoldable pub str_lt : Bytes → Bytes → Bool
str_lt [] [] = false
str_lt [] (y ∷ ys) = true
str_lt (x ∷ xs) [] = false
str_lt (x ∷ xs) (y ∷ ys) = let rest = str_lt xs ys in if x == y then rest else leb x y

-- `strings.Join(words, sep)`
unfoldable pub join : Bytes → List Bytes → Bytes
join sep [] = []
join sep (w ∷ []) = w
join sep (w ∷ v ∷ ws) = w ++ (sep ++ join sep (v ∷ ws))
