-- ===== src/Monitor/Restart/Mounts.antt =====
-- The verdict on a log that lists added and removed mounts.
use px_installer.Base.{
  ℕ, zero, suc, ◌+◌, ◌<◌, Bool, false, not, some, List, [], ◌∷◌, ◌++◌, ◌≡◌, refl, ap, ◌∙◌, arith,
  ◌==◌, All, All-append, length, drop, Bytes, lit, has_prefix, index, fields, join,
}
use px_installer.Base.Search.{IsWord, take-length, drop-length_add, index-byte, fields-join}
use px_installer.Monitor.Restart.{mounts, index_above_0, section_body, section, rm_marker}

-- A mount as the log prints it: a word with no braces.
abbrev pub IsMount : Bytes → Type 0
IsMount w = IsWord w × All (λ c. (c == b'{') ≡ false) w × All (λ c. (c == b'}') ≡ false) w

abbrev outside : Bytes → Bytes → Bool
outside dir p = not (has_prefix p dir)

pub join-All :
    (P : ℕ → Type 0) (ws : List Bytes) → P b' ' → All (λ w. All P w) ws → All P (join (lit " ") ws)
unfolding join lit
join-All P [] s a = tt
join-All P (w ∷ []) s a = a.0
join-All P (w ∷ v ∷ ws) s a =
    All-append P w (b' ' ∷ join (lit " ") (v ∷ ws)) a.0 (s, join-All P (v ∷ ws) s a.1)

pub All-map :
    {A : Type 0} {P Q : A → Type 0} (xs : List A) → ((x : A) → P x → Q x) → All P xs → All Q xs
All-map [] f a = tt
All-map (x ∷ xs) f a = (f x a.0, All-map xs f a.1)

pub join-ne-nil : (w : Bytes) (ws : List Bytes) → IsWord w → 0 < length (join (lit " ") (w ∷ ws))
unfolding join
join-ne-nil [] ws h = absurd (h.0 refl)
join-ne-nil (c ∷ w) [] h = omega arith
join-ne-nil (c ∷ w) (v ∷ ws) h = omega arith

-- What stands between the two lists.
abbrev pub middle : Bytes
middle = lit "} rm{"

no_rm :
    (x : ℕ) (xs t : Bytes)
    → All (λ c. (c == b'{') ≡ false) xs
    → has_prefix (x ∷ (xs ++ (middle ++ t))) rm_marker ≡ false
unfolding has_prefix lit
no_rm x [] t a = ground arith
no_rm x (y ∷ []) t a = ground arith
no_rm x (y ∷ z ∷ []) t a = ground arith
no_rm x (y ∷ z ∷ w ∷ xs) t a = ground (arith, a.1.1.0)

-- The marker of the second list is found behind the brace that closes the first.
pub index-rm_marker :
    (xs t : Bytes)
    → All (λ c. (c == b'{') ≡ false) xs
    → index (xs ++ (middle ++ t)) rm_marker ≡ some (length xs + 1)
unfolding index
index-rm_marker [] t a = unfold has_prefix lit in refl
index-rm_marker (x ∷ xs) t a = ground (arith, no_rm x xs t a.1, index-rm_marker xs t a.1)

index_above_0-eq :
    (s sub : Bytes) (n : ℕ) → index s sub ≡ some n → 0 < n → index_above_0 s sub ≡ some n
unfolding index_above_0
index_above_0-eq s sub zero e h = elim h [ ]
index_above_0-eq s sub (suc n) e h = rw e

pub section_body-join :
    (ws : List Bytes) (t : Bytes)
    → All IsMount ws
    → 0 < length (join (lit " ") ws)
    → section_body (join (lit " ") ws ++ (b'}' ∷ t)) ≡ mounts ws
unfolding section_body
section_body-join ws t a h =
    rw (found, section_body)
      (ap mounts
        (ap fields (take-length text (b'}' ∷ t)) ∙ fields-join ws (All-map ws (λ w m. m.0) a)))
  where
    text : Bytes
    text = join (lit " ") ws

    found : index_above_0 (text ++ (b'}' ∷ t)) (lit "}") ≡ some (length text)
    found =
        index_above_0-eq _ _ _
          (unfold lit in
            index-byte b'}' text t
              (join-All (λ c. (c == b'}') ≡ false) ws refl (All-map ws (λ w m. m.2) a)))
          h

pub section-at :
    (marker s before tail : Bytes)
    → s ≡ before ++ (marker ++ tail)
    → index s marker ≡ some (length before)
    → 0 < length before
    → section marker s ≡ (section_body tail, tail)
unfolding section
section-at marker s before tail e i h =
    rw (index_above_0-eq s marker (length before) i h, section)
      (ap (λ t. (section_body t, t))
        (ap (drop (length before + length marker)) e ∙ drop-length_add before marker tail))
