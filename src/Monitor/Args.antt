-- ===== src/Monitor/Args.antt =====
-- The loop over `os.Args` in `main` of px-oci-mon/main.go.
pub mod Options
use px_installer.Base.{
  Bool, true, false, Option, none, some, List, [], ◌∷◌, ◌++◌, if◌then◌else◌, Bytes, lit, str_eq,
  ◌||◌,
}

-- The globals that the loop sets, and the trimmed argument list.
pub record Settings : Type 0 where
  pub pre_sync : Bool
  pub drain_all_pods : Bool
  pub rest_endpoint : Bytes
  pub debugs_on : Bool
  pub logfile : Option Bytes
  pub scheduler : Option Bytes
  pub args : List Bytes

-- The process goes on with its settings, or exits with status 1.
pub data Parsed : Type 0 where
  settings : Settings → Parsed
  exit_usage exit_log exit_scheduler : Parsed

pub data Kind : Type 0 where
  empty sync drain_all endpoint log scheduler_flag help debug other : Kind

unfoldable pub kind : Bytes → Kind
kind arg =
    if str_eq arg []
    then empty
    else if str_eq arg (lit "--sync")
    then sync
    else if str_eq arg (lit "--drain-all")
    then drain_all
    else if str_eq arg (lit "--endpoint")
    then endpoint
    else if str_eq arg (lit "--log")
    then log
    else if str_eq arg (lit "-x")
    then scheduler_flag
    else if str_eq arg (lit "--help") || str_eq arg (lit "-h")
    then help
    else if str_eq arg (lit "--debug")
    then debug
    else other

abbrev pub kubernetes_args : List Bytes
kubernetes_args = lit "-x" ∷ lit "kubernetes" ∷ []

abbrev pub add_args : Settings → List Bytes → Settings
add_args s more = record s { args = s.args ++ more }

-- After the loop: the default scheduler.
unfoldable pub finish : Option Bytes → Settings → Settings
finish none s = add_args s kubernetes_args
finish (some _) s = s

abbrev pub initial : Settings
initial = record {
  pre_sync = false;
  drain_all_pods = false;
  rest_endpoint = [];
  debugs_on = false;
  logfile = none;
  scheduler = none;
  args = [];
}

abbrev pub done : Settings → Parsed
done s = settings (finish s.scheduler s)

-- `open_log` says whether `setLogfile` can open a file.
module _ (open_log : Bytes → Bool) where
  unfoldable pub parse_loop : List Bytes → Settings → Parsed
  parse_loop [] s = done s
  parse_loop (arg ∷ []) s = elim (kind arg) [
    | empty ↦ done s
    | sync ↦ done (record s { pre_sync = true })
    | drain_all ↦ done (record s { drain_all_pods = true })
    | debug ↦ done (add_args (record s { debugs_on = true }) (arg ∷ []))
    | other ↦ done (add_args s (arg ∷ []))
    | _ ↦ exit_usage
  ]
  parse_loop (arg ∷ next ∷ rest) s = elim (kind arg) [
    | empty ↦ parse_loop rest s
    | sync ↦ parse_loop (next ∷ rest) (record s { pre_sync = true })
    | drain_all ↦ parse_loop (next ∷ rest) (record s { drain_all_pods = true })
    | endpoint ↦ parse_loop rest (record s { rest_endpoint = next })
    | log ↦
        let more = parse_loop rest (record s { logfile = some next }) in
        if open_log next then more else exit_log
    | scheduler_flag ↦
        let more =
          parse_loop rest (add_args (record s { scheduler = some next }) kubernetes_args) in
        if str_eq next (lit "kubernetes") then more else exit_scheduler
    | help ↦ exit_usage
    | debug ↦ parse_loop (next ∷ rest) (add_args (record s { debugs_on = true }) (arg ∷ []))
    | other ↦ parse_loop (next ∷ rest) (add_args s (arg ∷ []))
  ]

  unfoldable pub parse_args : List Bytes → Parsed
  unfolding parse_loop kind finish
  parse_args argv = parse_loop argv initial
