-- ===== src/Monitor/Restart/Verdict.antt =====
-- What `isRestartRequired` answers on a log that lists added and removed mounts.
use px_installer.Base.{
  ◌+◌, ◌<◌, Bool, true, false, not, ◌||◌, none, some, List, [], ◌∷◌, ◌++◌, ◌≡◌, refl, sym, ap, ◌∙◌,
  arith, ◌==◌, any, All, length, length-append, Bytes, lit, has_prefix, index, join, append_assoc,
}
use px_installer.Base.Result.{ok}
use px_installer.Monitor.Restart.{
  mounts, index_above_0, decided, section_body, section, is_foreign, add_marker, rm_marker,
  mounts_changed, is_restart_required,
}
use px_installer.Monitor.Restart.Mounts.{
  IsMount, join-All, join-ne-nil, All-map, middle, index-rm_marker, section_body-join, section-at,
}

-- The mounts of a list that lie outside a directory.
abbrev pub any_outside : Bytes → List Bytes → Bool
any_outside dir ps = any (λ p. not (has_prefix p dir)) ps

module _ (before : Bytes) (some_before : 0 < length before) (s : Bytes) where
  -- The first list has nothing between its braces.
  mounts_changed_nil :
      (dir tail : Bytes)
      → s ≡ before ++ (add_marker ++ (lit "}" ++ tail))
      → index s add_marker ≡ some (length before)
      → mounts_changed dir s ≡ true
  unfolding mounts_changed
  mounts_changed_nil dir tail e i =
      rw (section-at add_marker s before (lit "}" ++ tail) e i some_before)
        (unfold section_body index_above_0 index has_prefix lit is_foreign in refl)

  module _ (a r : Bytes) (adds rms : List Bytes) (after : Bytes) where
    added : Bytes
    added = join (lit " ") (a ∷ adds)

    removed : Bytes
    removed = join (lit " ") (r ∷ rms) ++ (lit "}" ++ after)

    mounts_changed-join :
        (dir : Bytes)
        → s ≡ before ++ (add_marker ++ (added ++ (middle ++ removed)))
        → index s add_marker ≡ some (length before)
        → All IsMount (a ∷ adds)
        → All IsMount (r ∷ rms)
        → mounts_changed dir s ≡ any_outside dir (a ∷ adds) || any_outside dir (r ∷ rms)
    unfolding mounts_changed added removed is_foreign
    mounts_changed-join dir e i ha hr = rw (
      section-at add_marker s before (added ++ (middle ++ removed)) e i some_before,
      first,
      second,
      third,
    )
      where
        first : section_body (added ++ (middle ++ removed)) ≡ mounts (a ∷ adds)
        first = unfold lit in section_body-join (a ∷ adds) _ ha (join-ne-nil a adds ha.0.0)

        third : section_body removed ≡ mounts (r ∷ rms)
        third = unfold lit in section_body-join (r ∷ rms) after hr (join-ne-nil r rms hr.0.0)

        one_more : length (added ++ lit "}") ≡ length added + 1
        one_more = unfold lit in length-append added (b'}' ∷ [])

        second : section rm_marker (added ++ (middle ++ removed)) ≡ (section_body removed, removed)
        second =
            section-at rm_marker (added ++ (middle ++ removed)) (added ++ lit "}") removed
              (unfold lit in sym (append_assoc added (lit "}") (rm_marker ++ removed)))
              (index-rm_marker added removed (
                  join-All (λ c. (c == b'{') ≡ false) (a ∷ adds) refl
                    (All-map (a ∷ adds) (λ w m. m.1) ha))
                ∙ ap some (sym one_more))
              (omega (arith, one_more))

is_restart_required_open :
    (root s : Bytes)
    → decided s ≡ none
    → is_restart_required (ok root) s ≡ mounts_changed (root ++ lit "/pods/") s
unfolding is_restart_required
is_restart_required_open root s h = rw h

-- A log that is not decided by its SPEC line, and lists at least one added and one removed mount
-- behind some text, calls for a restart exactly if one of these mounts is not under the pods
-- directory of the kubelet.
pub is_restart_required-join :
    (root before a r : Bytes) (adds rms : List Bytes) (after s : Bytes)
    → s
      ≡ before
        ++ (add_marker
            ++ (join (lit " ") (a ∷ adds)
                ++ (middle ++ (join (lit " ") (r ∷ rms) ++ (lit "}" ++ after)))))
    → decided s ≡ none
    → 0 < length before
    → index s add_marker ≡ some (length before)
    → All IsMount (a ∷ adds)
    → All IsMount (r ∷ rms)
    → is_restart_required (ok root) s
      ≡ any_outside (root ++ lit "/pods/") (a ∷ adds)
        || any_outside (root ++ lit "/pods/") (r ∷ rms)
is_restart_required-join root before a r adds rms after s e o b i ha hr =
    is_restart_required_open root s o
    ∙ mounts_changed-join before b s a r adds rms after (root ++ lit "/pods/")
        (unfold added removed in e) i ha hr

-- A log that is not decided by its SPEC line, and lists no added mount between the braces, calls
-- for a restart, whatever the removed mounts are.
pub is_restart_required_no_adds :
    (root before tail s : Bytes)
    → s ≡ before ++ (add_marker ++ (lit "}" ++ tail))
    → decided s ≡ none
    → 0 < length before
    → index s add_marker ≡ some (length before)
    → is_restart_required (ok root) s ≡ true
is_restart_required_no_adds root before tail s e o b i =
    is_restart_required_open root s o
    ∙ mounts_changed_nil before b s (root ++ lit "/pods/") tail e i
