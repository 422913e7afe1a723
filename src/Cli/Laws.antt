-- ===== src/Cli/Laws.antt =====
-- Which mode the options of main.py and main_options.py select.
use pclipsync.Base.{◌≡◌, Bool, true, false, not, ◌&&◌, List, if◌then◌else◌, arith}
use pclipsync.Exec.{usage_error, ok, raise}
use pclipsync.Cli.{
  OptionName, server, client, socket, given, check_mutual_exclusion, handle_parse_result,
  select_mode,
}

-- Exactly one of two.
abbrev pub one_of : Bool → Bool → Bool
one_of true b = not b
one_of false b = b

-- The options select a mode exactly if the socket is given and one of the two modes is, and then
-- that mode; any others are a usage error.
pub select_mode_lem :
    (opts : List OptionName)
    → select_mode opts ≡ (
        if given socket opts && one_of (given server opts) (given client opts)
        then ok (given server opts)
        else raise usage_error)
unfolding select_mode handle_parse_result check_mutual_exclusion
select_mode_lem opts = ground arith
