-- ===== src/Cli.antt =====
-- src/pclipsync/main.py and main_options.py: the options, and the exit status of a run.
pub mod Laws
use pclipsync.Base.{
  ℕ, Bool, true, false, not, ◌&&◌, ◌||◌, Option, none, some, List, [], ◌∷◌, if◌then◌else◌,
}
use pclipsync.X11.{Outside}
use pclipsync.SyncLoop.{Outcome, stay, leave}
use pclipsync.Startup.{Level, debug, warning, System, Os, Peer}
use pclipsync.Server.{run_server_with_cleanup}
use pclipsync.Client.{run_client}
use pclipsync.Exec.{
  throw, modify, catch, ◌>>=◌, ◌>>◌, Exn, usage_error, system_exit, is_protocol_error,
  is_connection_error, Result, ok, raise,
}

pub data OptionName : Type 0 where
  server client socket verbose : OptionName

unfoldable pub same_option : OptionName → OptionName → Bool
same_option server server = true
same_option client client = true
same_option socket socket = true
same_option verbose verbose = true
same_option _ _ = false

-- `other in opts`
unfoldable pub given : OptionName → List OptionName → Bool
unfolding same_option
given name [] = false
given name (o ∷ opts) = same_option name o || given name opts

unfoldable pub check_mutual_exclusion : List OptionName → List OptionName → Result (Unit {0})
unfolding given
check_mutual_exclusion [] opts = ok tt
check_mutual_exclusion (other ∷ others) opts =
    if given other opts then raise usage_error else check_mutual_exclusion others opts

-- `MutuallyExclusiveOption.handle_parse_result`, for an option and those that exclude it.
unfoldable pub handle_parse_result :
    OptionName → List OptionName → List OptionName → Result (Unit {0})
unfolding check_mutual_exclusion
handle_parse_result name not_required_if opts =
    if given name opts then check_mutual_exclusion not_required_if opts else ok tt

infixl 5 ◌then_check◌
abbrev ◌then_check◌ : Result (Unit {0}) → Result (Unit {0}) → Result (Unit {0})
ok _ then_check r = r
raise x then_check r = raise x

-- The checks of both options, the required option (click's own check), and that of `main`. The
-- result is whether to run the server.
unfoldable pub select_mode : List OptionName → Result Bool
unfolding handle_parse_result
select_mode opts =
    elim (handle_parse_result server (client ∷ []) opts
      then_check handle_parse_result client (server ∷ []) opts
      then_check (if given socket opts then ok tt else raise usage_error)
      then_check (if not (given server opts) && not (given client opts)
          then raise usage_error
          else ok tt)) [ ok _ ↦ ok (given server opts) | raise x ↦ raise x ]

-- `_run_mode` turns protocol and connection errors into status 1, click a usage error into 2, and
-- Python an exception that nothing catches into 1.
unfoldable pub exit_status {ℓ} : {A : Type ℓ} → Result A → ℕ
exit_status (ok a) = 0
exit_status (raise (system_exit n)) = n
exit_status (raise usage_error) = 2
exit_status (raise x) = 1

-- `configure_logging`
unfoldable pub configure_logging : Bool → Os (Unit {0})
configure_logging is_verbose =
    modify (λ y. record y { log_level = if is_verbose then debug else warning })

-- `except (ProtocolError, ConnectionError): sys.exit(1)`
unfoldable pub mode_errors : Exn → Os Outcome
mode_errors x =
    if is_protocol_error x || is_connection_error x then throw (system_exit 1) else throw x

module _ (O : Outside) where
  unfoldable pub run_mode : Bool → Peer → Os Outcome
  unfolding mode_errors
  run_mode is_server p =
      catch (if is_server then run_server_with_cleanup O p else run_client O p) mode_errors

  unfoldable pub main : List OptionName → Peer → Os Outcome
  unfolding select_mode configure_logging run_mode
  main opts p = do
    is_server ← λ y. (select_mode opts, y)
    configure_logging (given verbose opts)
    run_mode is_server p

-- The exit status of a process that has ended.
unfoldable pub process_status : Result Outcome → Option ℕ
unfolding exit_status
process_status (ok stay) = none
process_status (ok leave) = some 0
process_status (raise x) = some (exit_status {A = Outcome} (raise x))
