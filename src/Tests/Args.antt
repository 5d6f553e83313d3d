-- ===== src/Tests/Args.antt =====
-- Command lines, and logs of `px-runc install`.
use px_installer.Base.{
  ℕ, Bool, true, false, ◌||◌, none, some, List, [], ◌∷◌, ◌++◌, ◌≡◌, refl, arith, length, any, ◌≢◌,
  All, Bytes, lit, str_eq, has_prefix, index, join, is_space, ◌==◌,
}
use px_installer.Base.Result.{ok}
use px_installer.Monitor.Args.{Settings, settings, initial, finish, kind, parse_args}
use px_installer.Monitor.Args.Options.{
  Opt, pre_sync_opt, log_opt, plain_opt, command_line, meanings, parse_args-command_line,
  parse_args-empty, IsUsable,
}
use px_installer.Monitor.Restart.{add_marker, decided, is_restart_required}
use px_installer.Monitor.Restart.Mounts.{IsMount, middle}
use px_installer.Monitor.Restart.Verdict.{
  any_outside, is_restart_required-join, is_restart_required_no_adds,
}

-- Only /var/log/px can be opened.
abbrev open_px : Bytes → Bool
open_px f = str_eq f (lit "/var/log/px")

abbrev some_opts : List Opt
some_opts = pre_sync_opt ∷ log_opt (lit "/var/log/px") ∷ plain_opt (lit "-c") ∷ []

some_opts-All : All (IsUsable open_px) some_opts
unfolding str_eq kind lit
some_opts-All = (tt, (refl, (refl, tt)))

parse_args-command_line_example :
    parse_args open_px (command_line some_opts)
    ≡ settings (finish (meanings some_opts initial).scheduler (meanings some_opts initial))
parse_args-command_line_example = parse_args-command_line open_px some_opts some_opts-All

parse_args-empty_example :
    parse_args open_px (command_line some_opts ++ ([] ∷ lit "--drain-all" ∷ lit "-d" ∷ []))
    ≡ parse_args open_px (command_line some_opts ++ (lit "-d" ∷ []))
parse_args-empty_example =
    parse_args-empty open_px some_opts (lit "--drain-all") (lit "-d" ∷ []) some_opts-All

abbrev plain_settings : Settings
plain_settings = record initial { args = lit "-c" ∷ lit "-x" ∷ lit "kubernetes" ∷ [] }

plain_parsed : parse_args open_px (lit "-c" ∷ []) ≡ settings plain_settings
unfolding parse_args lit str_eq
plain_parsed = refl

abbrev changed_log : Bytes
changed_log =
    lit "log:"
    ++ (add_marker
        ++ (join (lit " ") (lit "/a" ∷ lit "/p/pods/b" ∷ [])
            ++ (middle ++ (join (lit " ") (lit "/p/pods/c" ∷ []) ++ (lit "}" ++ lit "!")))))

changed_undecided : decided changed_log ≡ none
unfolding decided lit index has_prefix join
changed_undecided = refl

changed_marker : index changed_log add_marker ≡ some (length (lit "log:"))
unfolding lit index has_prefix join
changed_marker = refl

pub any-All : (p : ℕ → Bool) (s : Bytes) → any p s ≡ false → All (λ c. p c ≡ false) s
any-All p [] h = tt
any-All p (c ∷ s) h = (ground arith, any-All p s (ground arith))

plain-IsMount :
    (s : Bytes)
    → s ≢ []
    → any is_space s ≡ false
    → any (λ c. c == b'{') s ≡ false
    → any (λ c. c == b'}') s ≡ false
    → IsMount s
plain-IsMount s ne a b c =
    ((ne, any-All is_space s a), any-All (λ c. c == b'{') s b, any-All (λ c. c == b'}') s c)

changed_mounts : All IsMount (lit "/a" ∷ lit "/p/pods/b" ∷ []) × All IsMount (lit "/p/pods/c" ∷ [])
unfolding lit is_space
changed_mounts = (
  (plain-IsMount _ (λ e. cc) refl refl refl, (plain-IsMount _ (λ e. cc) refl refl refl, tt)),
  (plain-IsMount _ (λ e. cc) refl refl refl, tt),
)

is_restart_required-join_example :
    is_restart_required (ok (lit "/p")) changed_log
    ≡ any_outside (lit "/p" ++ lit "/pods/") (lit "/a" ∷ lit "/p/pods/b" ∷ [])
      || any_outside (lit "/p" ++ lit "/pods/") (lit "/p/pods/c" ∷ [])
is_restart_required-join_example =
    is_restart_required-join (lit "/p") (lit "log:") (lit "/a") (lit "/p/pods/c")
      (lit "/p/pods/b" ∷ []) [] (lit "!") changed_log refl changed_undecided
      (unfold lit in omega arith) changed_marker changed_mounts.0 changed_mounts.1

abbrev no_adds_log : Bytes
no_adds_log = lit "log:" ++ (add_marker ++ (lit "}" ++ lit " rm{/p/pods/c}"))

no_adds_undecided : decided no_adds_log ≡ none
unfolding decided lit index has_prefix
no_adds_undecided = refl

no_adds_marker : index no_adds_log add_marker ≡ some (length (lit "log:"))
unfolding lit index has_prefix
no_adds_marker = refl

is_restart_required_no_adds_example : is_restart_required (ok (lit "/p")) no_adds_log ≡ true
is_restart_required_no_adds_example =
    is_restart_required_no_adds (lit "/p") (lit "log:") (lit " rm{/p/pods/c}") no_adds_log refl
      no_adds_undecided (unfold lit in omega arith) no_adds_marker
