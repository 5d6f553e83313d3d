-- ===== src/Base/Search.antt =====
-- What searching and splitting find in texts that were put together.
use Prim.Native.Nat.{ℕ, ◌+◌}
use mathlib.Core.Path.{◌≡◌, refl, sym, ◌∙◌, ap}
use mathlib.Core.Logic.{◌≢◌}
use mathlib.Core.Bool.{false}
use mathlib.Core.Option.{some}
use mathlib.Core.List.{List, [], ◌∷◌, ◌++◌, append-nil, append_assoc}
use native.Mathlib.Omega.{arith}
use px_installer.Base.Tests.{◌==◌}
use px_installer.Base.Lists.{length, length-append, take, drop, All}
use px_installer.Base.Text.{
  Bytes, lit, has_prefix, index, fields, fields_from, is_space, join, flush,
}

pub take-length : (xs ys : Bytes) → take (length xs) (xs ++ ys) ≡ xs
take-length [] ys = refl
take-length (x ∷ xs) ys = ap (◌∷◌ x) (take-length xs ys)

pub drop-length : (xs ys : Bytes) → drop (length xs) (xs ++ ys) ≡ ys
drop-length [] ys = refl
drop-length (x ∷ xs) ys = drop-length xs ys

pub drop-length_add : (xs ys zs : Bytes) → drop (length xs + length ys) (xs ++ (ys ++ zs)) ≡ zs
drop-length_add xs ys zs =
    rw (← length-append xs ys, ← append_assoc xs ys zs) (drop-length (xs ++ ys) zs)

-- A byte is found where it first stands.
pub index-byte :
    (b : ℕ) (xs ys : Bytes)
    → All (λ c. (c == b) ≡ false) xs
    → index (xs ++ (b ∷ ys)) (b ∷ []) ≡ some (length xs)
unfolding index has_prefix
index-byte b [] ys a = ground arith
index-byte b (x ∷ xs) ys a = ground (arith, index-byte b xs ys a.1, a.0)

abbrev pub IsWord : Bytes → Type 0
IsWord w = (w ≢ []) × All (λ c. is_space c ≡ false) w

fields_from-word :
    (word w rest : Bytes)
    → All (λ c. is_space c ≡ false) w
    → fields_from word (w ++ rest) ≡ fields_from (word ++ w) rest
unfolding fields_from
fields_from-word word [] rest a = rw append-nil
fields_from-word word (c ∷ w) rest a =
    rw (a.0, fields_from) (fields_from-word (word ++ c ∷ []) w rest a.1 ∙ rw append_assoc)

flush_word : (w : Bytes) (ws : List Bytes) → w ≢ [] → flush w ws ≡ w ∷ ws
flush_word [] ws h = absurd (h refl)
flush_word (c ∷ w) ws h = refl

fields_from-end : (w : Bytes) → IsWord w → fields_from [] w ≡ w ∷ []
fields_from-end w a =
    ap (fields_from []) (sym (append-nil w))
    ∙ fields_from-word [] w [] a.1
    ∙ unfold fields_from in flush_word w [] a.0

fields_from-space :
    (w rest : Bytes) → IsWord w → fields_from [] (w ++ (b' ' ∷ rest)) ≡ w ∷ fields_from [] rest
fields_from-space w rest a =
    fields_from-word [] w (b' ' ∷ rest) a.1
    ∙ unfold fields_from is_space in flush_word w (fields_from [] rest) a.0

-- Words joined by single spaces are found again.
pub fields-join : (ws : List Bytes) → All IsWord ws → fields (join (lit " ") ws) ≡ ws
unfolding fields join lit
fields-join [] a = unfold fields_from in refl
fields-join (w ∷ []) a = fields_from-end w a.0
fields-join (w ∷ v ∷ ws) a =
    fields_from-space w (join (lit " ") (v ∷ ws)) a.0 ∙ ap (◌∷◌ w) (fields-join (v ∷ ws) a.1)
