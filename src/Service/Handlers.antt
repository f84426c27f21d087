-- ===== src/Service/Handlers.antt =====
-- What the handlers of service_req_account.c, service_req_device.c, service_req_play.c and
-- service_req_platform.c share: the fields of a request, the pairs of a reply, and the sessions
-- and the database that they act on. A failed assertion ends the run, so that the replies behind
-- `assert(0)` are faults.
pub mod Account
pub mod Args
pub mod Devices
pub mod Lists
pub mod Play
pub mod Platform
pub mod Keeps
pub mod Policies
pub mod AdminPolicies
pub mod Commands
pub mod Permission
pub mod MayChange
pub mod PlayLeak
pub mod Tests
use livezure.Prelude.{
  ℕ, ◌==◌, if◌then◌else◌, Bool, true, false, List, [], ◌∷◌, leb, length, Option, none, some, Run,
  ok, fault, ◌>>=◌, out_of_range, Text, bytes,
}
use livezure.Rpc.Parser
use livezure.Rpc.Parser.{Item}
use livezure.Rpc.Parser.Stream.{Pair, until_nul}
use livezure.Service.Session.{Node, dref}

abbrev pub Request : Type 0
Request = Option (List Item)

value_of : Option (Option (List ℕ) × ℕ) → Option Text
value_of none = none
value_of (some (none, _)) = none
value_of (some (some mem, _)) = some (until_nul mem)

-- `rpc_parser_get(req, key, NULL)` and the text that its result points to.
unfoldable pub arg : Request → Text → Option Text
unfolding value_of
arg req key = value_of (Parser.get req key)

-- The pairs that `rpc_keypair_append` puts into the reply, in their order.
abbrev pub Reply : Type 0
Reply = List Pair

abbrev pub pair : Text → Text → Pair
pair key value = record { key = key; value = value }

unfoldable pub rid : Text → Reply
rid value = pair (bytes "rid") value ∷ []

pub record World (D : Type 0) : Type 0 where
  pub table : List Node
  pub database : D

-- `online_session_dref`, and the same before a reply.
unfoldable pub release : {D : Type 0} → ℕ → World D → Run (World D)
release address w = do table ← dref address w.table; ok (record w { table = table })

unfoldable pub leave : {D : Type 0} → ℕ → Reply → World D → Run (Reply × World D)
leave address reply w = release address w >>= λ w'. ok (reply, w')

-- `valid_uuid` and `valid_pwd`, `valid_nickname`, `valid_comment`
unfoldable pub valid_name : Text → Bool
valid_name name = leb (length name) 16

unfoldable pub valid_optional : ℕ → Option Text → Bool
valid_optional size none = true
valid_optional size (some text) = leb (length text) size

unfoldable pub or_empty : Option Text → Text
or_empty none = []
or_empty (some text) = text
