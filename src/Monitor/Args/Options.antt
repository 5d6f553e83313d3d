-- ===== src/Monitor/Args/Options.antt =====
-- Command lines written from options, and what the loop makes of any command line.
use px_installer.Base.{
  ◌≤◌, Bool, true, false, ◌&&◌, ◌||◌, Option, none, some, List, [], ◌∷◌, ◌++◌, ◌≡◌, refl, sym, ap,
  ◌∙◌, arith, length, All, Bytes, lit, str_eq, str_eq_refl, append_assoc, append-nil,
}
use px_installer.Monitor.Args.{
  Settings, Parsed, settings, empty, sync, drain_all, endpoint, log, scheduler_flag, debug, other,
  kind, kubernetes_args, add_args, finish, done, parse_loop, initial, parse_args,
}

-- What an option on the command line can be.
pub data Opt : Type 0 where
  pre_sync_opt drain_all_opt debug_opt kubernetes_opt : Opt
  endpoint_opt log_opt plain_opt : Bytes → Opt

unfoldable pub words : Opt → List Bytes
words pre_sync_opt = lit "--sync" ∷ []
words drain_all_opt = lit "--drain-all" ∷ []
words debug_opt = lit "--debug" ∷ []
words kubernetes_opt = kubernetes_args
words (endpoint_opt e) = lit "--endpoint" ∷ e ∷ []
words (log_opt f) = lit "--log" ∷ f ∷ []
words (plain_opt a) = a ∷ []

-- The effect that the usage text describes.
unfoldable pub meaning : Opt → Settings → Settings
meaning pre_sync_opt s = record s { pre_sync = true }
meaning drain_all_opt s = record s { drain_all_pods = true }
meaning debug_opt s = add_args (record s { debugs_on = true }) (lit "--debug" ∷ [])
meaning kubernetes_opt s =
    add_args (record s { scheduler = some (lit "kubernetes") }) kubernetes_args
meaning (endpoint_opt e) s = record s { rest_endpoint = e }
meaning (log_opt f) s = record s { logfile = some f }
meaning (plain_opt a) s = add_args s (a ∷ [])

unfoldable pub command_line : List Opt → List Bytes
command_line [] = []
command_line (o ∷ opts) = words o ++ command_line opts

unfoldable pub meanings : List Opt → Settings → Settings
meanings [] s = s
meanings (o ∷ opts) s = meanings opts (meaning o s)

kind-literals :
    (kind (lit "--sync") ≡ sync)
    × (kind (lit "--drain-all") ≡ drain_all)
    × (kind (lit "--debug") ≡ debug)
    × (kind (lit "--endpoint") ≡ endpoint)
    × (kind (lit "--log") ≡ log)
    × (kind (lit "-x") ≡ scheduler_flag)
    × (kind [] ≡ empty)
unfolding kind lit str_eq
kind-literals = (refl, refl, refl, refl, refl, refl, refl)

module _ (open_log : Bytes → Bool) where
  -- A logfile can be opened, and a plain argument is none of the words that the loop knows.
  abbrev pub IsUsable : Opt → Type 0
  IsUsable (log_opt f) = open_log f ≡ true
  IsUsable (plain_opt a) = kind a ≡ other
  IsUsable _ = Unit

  parse_loop-words :
      (o : Opt) (rest : List Bytes) (s : Settings)
      → IsUsable o
      → parse_loop open_log (words o ++ rest) s ≡ parse_loop open_log rest (meaning o s)
  unfolding parse_loop words meaning
  parse_loop-words pre_sync_opt [] s u = ground (arith, kind-literals)
  parse_loop-words pre_sync_opt (x ∷ rest) s u = ground (arith, kind-literals)
  parse_loop-words drain_all_opt [] s u = ground (arith, kind-literals)
  parse_loop-words drain_all_opt (x ∷ rest) s u = ground (arith, kind-literals)
  parse_loop-words debug_opt [] s u = ground (arith, kind-literals)
  parse_loop-words debug_opt (x ∷ rest) s u = ground (arith, kind-literals)
  parse_loop-words kubernetes_opt rest s u =
      ground (arith, kind-literals, str_eq_refl (lit "kubernetes"))
  parse_loop-words (endpoint_opt e) rest s u = ground (arith, kind-literals)
  parse_loop-words (log_opt f) rest s u = ground (arith, kind-literals)
  parse_loop-words (plain_opt a) [] s u = ground arith
  parse_loop-words (plain_opt a) (x ∷ rest) s u = ground arith

  parse_loop-command_line :
      (opts : List Opt) (rest : List Bytes) (s : Settings)
      → All IsUsable opts
      → parse_loop open_log (command_line opts ++ rest) s
        ≡ parse_loop open_log rest (meanings opts s)
  unfolding command_line meanings
  parse_loop-command_line [] rest s u = refl
  parse_loop-command_line (o ∷ opts) rest s u = rw append_assoc (
      parse_loop-words o (command_line opts ++ rest) s u.0
      ∙ parse_loop-command_line opts rest (meaning o s) u.1)

  parse_loop-empty :
      (next : Bytes) (rest : List Bytes) (s : Settings)
      → parse_loop open_log ([] ∷ next ∷ rest) s ≡ parse_loop open_log rest s
  unfolding parse_loop
  parse_loop-empty next rest s = ground (arith, kind-literals)

  -- A command line written from usable options is read as those options in order, with the default
  -- scheduler added if none of them names one.
  pub parse_args-command_line :
      (opts : List Opt)
      → All IsUsable opts
      → parse_args open_log (command_line opts)
        ≡ settings (finish (meanings opts initial).scheduler (meanings opts initial))
  parse_args-command_line opts u =
      unfold parse_args in
      (ap (λ argv. parse_loop open_log argv initial) (sym (append-nil (command_line opts)))
        ∙ parse_loop-command_line opts [] initial u)

  -- The argument behind an empty one is dropped with it, whatever it is.
  pub parse_args-empty :
      (opts : List Opt) (next : Bytes) (rest : List Bytes)
      → All IsUsable opts
      → parse_args open_log (command_line opts ++ ([] ∷ next ∷ rest))
        ≡ parse_args open_log (command_line opts ++ rest)
  parse_args-empty opts next rest u =
      unfold parse_args in
      (parse_loop-command_line opts ([] ∷ next ∷ rest) initial u
        ∙ parse_loop-empty next rest (meanings opts initial)
        ∙ sym (parse_loop-command_line opts rest initial u))

-- `-x kubernetes` stands somewhere in the list.
unfoldable pub names_kubernetes : List Bytes → Bool
names_kubernetes [] = false
names_kubernetes (a ∷ []) = false
names_kubernetes (a ∷ b ∷ rest) =
    (str_eq a (lit "-x") && str_eq b (lit "kubernetes")) || names_kubernetes (b ∷ rest)

abbrev unscheduled : Option Bytes → Bool
unscheduled none = true
unscheduled (some _) = false

-- The scheduler is named in the arguments once it is set.
scheduler_inv : Settings → Bool
scheduler_inv s = unscheduled s.scheduler || names_kubernetes s.args

abbrev outcome : Parsed → Bool
outcome (settings s) = names_kubernetes s.args
outcome _ = true

names_kubernetes-append :
    (xs ys : List Bytes) → names_kubernetes xs ≡ true → names_kubernetes (xs ++ ys) ≡ true
unfolding names_kubernetes
names_kubernetes-append [] ys h = cc
names_kubernetes-append (a ∷ []) ys h = cc
names_kubernetes-append (a ∷ b ∷ rest) ys h = ground (arith, names_kubernetes-append (b ∷ rest) ys)

names_kubernetes-end : (xs : List Bytes) → names_kubernetes (xs ++ kubernetes_args) ≡ true
unfolding names_kubernetes
names_kubernetes-end [] = ground (arith, str_eq_refl (lit "-x"), str_eq_refl (lit "kubernetes"))
names_kubernetes-end (a ∷ []) =
    ground (arith, str_eq_refl (lit "-x"), str_eq_refl (lit "kubernetes"))
names_kubernetes-end (a ∷ b ∷ rest) = ground (arith, names_kubernetes-end (b ∷ rest))

names_kubernetes-length : (xs : List Bytes) → names_kubernetes xs ≡ true → 2 ≤ length xs
unfolding names_kubernetes
names_kubernetes-length [] h = cc
names_kubernetes-length (a ∷ []) h = cc
names_kubernetes-length (a ∷ b ∷ rest) h = omega arith

done-outcome : (s : Settings) → scheduler_inv s ≡ true → outcome (done s) ≡ true
unfolding finish scheduler_inv
done-outcome s h = ground (arith, names_kubernetes-end s.args)

parse_loop-outcome :
    (open_log : Bytes → Bool) (argv : List Bytes) (s : Settings)
    → scheduler_inv s ≡ true
    → outcome (parse_loop open_log argv s) ≡ true
unfolding parse_loop scheduler_inv
parse_loop-outcome open_log [] s h = done-outcome s h
parse_loop-outcome open_log (arg ∷ []) s h = ground (
  arith,
  done-outcome s h,
  done-outcome (record s { pre_sync = true }) h,
  done-outcome (record s { drain_all_pods = true }) h,
  done-outcome (add_args (record s { debugs_on = true }) (arg ∷ [])),
  done-outcome (add_args s (arg ∷ [])),
  names_kubernetes-append s.args (arg ∷ []),
)
parse_loop-outcome open_log (arg ∷ next ∷ rest) s h = ground (
  arith,
  names_kubernetes-append s.args (arg ∷ []),
  names_kubernetes-end s.args,
  parse_loop-outcome open_log rest s h,
  parse_loop-outcome open_log (next ∷ rest) (record s { pre_sync = true }) h,
  parse_loop-outcome open_log (next ∷ rest) (record s { drain_all_pods = true }) h,
  parse_loop-outcome open_log rest (record s { rest_endpoint = next }) h,
  parse_loop-outcome open_log rest (record s { logfile = some next }) h,
  parse_loop-outcome open_log rest (add_args (record s { scheduler = some next }) kubernetes_args),
  parse_loop-outcome open_log (next ∷ rest) (add_args (record s { debugs_on = true }) (arg ∷ [])),
  parse_loop-outcome open_log (next ∷ rest) (add_args s (arg ∷ [])),
)

-- When the loop ends without an exit, the argument list names the scheduler, and so it has the
-- element 1 that `installPxFromOciImage` looks at.
parse_args-names_kubernetes :
    (open_log : Bytes → Bool) (argv : List Bytes) {s : Settings}
    → parse_args open_log argv ≡ settings s
    → (names_kubernetes s.args ≡ true) × (2 ≤ length s.args)
unfolding parse_args scheduler_inv
parse_args-names_kubernetes open_log argv {s} e =
    let names : names_kubernetes s.args ≡ true =
      ground (arith, parse_loop-outcome open_log argv initial refl) in
    (names, names_kubernetes-length s.args names)
