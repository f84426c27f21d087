-- ===== src/Client/Platform.antt =====
-- media_api_platform.c: the version of the client, and what the service says of it.
use livezure.Prelude.{
  ℕ, ◌==◌, Bool, false, not, [], ◌∷◌, take, List, Option, none, some, Run, ok, ◌>>=◌, Text, bytes,
  atoi, decimal, sprintf,
}
use livezure.Rpc.Parser.{Item}
use livezure.Service.Handlers.{arg, pair}
use livezure.Rpc.Parser.Pack.{pack}
use livezure.Client.{Status, mc_ok, server_not_response, internal_error, Link, request}

-- `version_status_t`
pub record Version : Type 0 where
  pub cur_ver : Text
  pub new_ver : Text
  pub b_force_update : Bool
  pub update_logs : Text

abbrev pub no_version : Version
no_version = record { cur_ver = []; new_ver = []; b_force_update = false; update_logs = [] }

unfoldable pub mc_current_version : Text
mc_current_version = bytes "1.0.0.0"

unfoldable pub version_of :
    Option Text → Option Text → Option Text → Option Text → Run (Status × Version)
unfolding mc_current_version
version_of (some rid) (some new_ver) (some update_logs) (some force_update) = do
  force ← atoi force_update
  ok (
    mc_ok,
    record {
      cur_ver = mc_current_version;
      new_ver = take 63 new_ver;
      b_force_update = not (force == 0);
      update_logs = take 4095 update_logs;
    },
  )
version_of _ _ _ _ = ok (internal_error, no_version)

unfoldable pub read_version : Option (List Item) → Run (Status × Version)
read_version none = ok (server_not_response, no_version)
read_version (some req) =
    version_of (arg (some req) (bytes "rid")) (arg (some req) (bytes "new_ver"))
      (arg (some req) (bytes "update_log")) (arg (some req) (bytes "force_update"))

unfoldable pub mc_check_version :
    (ℕ → List ℕ) → {S : Type 0} → Link S → ℕ → S → Run (Status × Version × S)
mc_check_version malloc link pid s = do
  cpid ← sprintf 8 (decimal pid)
  input ← pack malloc none (pair (bytes "pid") cpid ∷ pair (bytes "ver") mc_current_version ∷ [])
  request link 0 0 input read_version s
