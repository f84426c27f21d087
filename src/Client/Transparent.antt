-- ===== src/Client/Transparent.antt =====
-- A call of the client comes to what the handler of the service does, and to the status for the
-- `rid` that it answers.
use livezure.Prelude.{
  ℕ, ◌+◌, ◌^◌, ◌<◌, ◌≡◌, refl, ap, ◌∙◌, ◌&&◌, true, List, [], ◌∷◌, length, length-append, arith,
  Option, none, some, Run, ok, ◌>>=◌, bind_assoc, Text, bytes, atoi, starts_with,
}
use livezure.Rpc.Buffer.{Buffer}
use livezure.Rpc.Parser.Stream.{Pair, IsClean, body, size, length-body}
use livezure.Rpc.Parser.RoundTrip.{items}
use livezure.Rpc.Parser.Pack.{pack, all_fit, IsText, AllTexts}
use livezure.Rpc.Dispatch.{processor, handles, add_cb}
use livezure.Service.Api.{register_all, register_each, register, category, sub_category, address}
use livezure.Service.Session.{Basic}
use livezure.Service.Database.{Provider}
use livezure.Service.Handlers.{rid, pair, World, valid_name, valid_optional}
use livezure.Service.Handlers.Args.{arg-items, unless_empty, unless_empty-some}
use livezure.Service.Handlers.Account.{
  delete_fields, create_fields, req_account_delete, req_account_create,
}
use livezure.Service.Handlers.Commands.{Command, account_create, account_delete, handle}
use livezure.Client.{
  Status, internal_error, Session, check_rid, check_number, switch, rid_status, finish,
  request_status,
}
use livezure.Client.Account.{
  create_cases, delete_cases, create_pairs, mc_account_create, mc_account_delete,
}
use livezure.Client.Service.{served, callback, command_at, serve, answers, Sendable, answers-sent}

-- The status of an answer with this `rid`, with the state of the service.
abbrev pub answered_by : {S : Type 0} → List (ℕ × Status) → Status → Text → S → Run (Status × S)
answered_by cases default value s = do
  rid ← atoi value
  status ← finish (switch rid cases default)
  ok (status, s)

-- A value of `rid` that comes through.
pub record IsRid (value : Text) : Type 0 where
  pub text : IsText value
  pub written : 0 < length value
  pub brief : length value < 2 ^ 20

rid-IsClean : IsClean (bytes "rid")
unfolding bytes
rid-IsClean = omega arith

rid-Sendable :
    (f : ℕ) (value : Text) → 1 < f → IsRid value → Sendable f (pair (bytes "rid") value) []
unfolding bytes all_fit
rid-Sendable f value enough r = record {
  texts = (rid-IsClean, r.text, tt);
  fits = refl;
  few = omega arith;
  short = omega (
    arith,
    r.brief,
    length-body (pair (bytes "rid") value),
    length-append (body (pair (bytes "rid") value)) [],
    size_lem value,
  );
}
  where
    size_lem : (value : Text) → size (pair (bytes "rid") value) ≡ 5 + length value
    size_lem value = unfold size in omega arith

check_rid-items :
    (value : Text) (rest : List ℕ)
    → IsRid value
    → check_rid (items (pair (bytes "rid") value ∷ []) rest) (bytes "rid") ≡ atoi value
unfolding check_rid check_number bytes starts_with
check_rid-items (c ∷ value) rest r = ap check_number (
    arg-items (pair (bytes "rid") (c ∷ value) ∷ []) rest (bytes "rid") (rid-IsClean, r.text, tt)
      rid-IsClean)
check_rid-items [] rest r = absurd (omega (arith, r.written))

module _ (malloc : ℕ → List ℕ) (malloc_length : (n : ℕ) → length (malloc n) ≡ n) (f : ℕ)
    (enough : 1 < f) {D : Type 0} (db : Provider D) (fd : ℕ) where
  -- A call whose request comes through, and that the handler answers with a `rid`.
  status-sent :
      (c s : ℕ) (command : Command) (cases : List (ℕ × Status)) (p : Pair) (ps : List Pair)
      (w w' : World D) (value : Text)
      → ((input : Option Buffer)
          → serve malloc f db fd c s input w ≡ answers malloc f (handle db command fd) input w)
      → Sendable f p ps
      → IsRid value
      → ((rest : List ℕ) → handle db command fd (some (items (p ∷ ps) rest)) w ≡ ok (rid value, w'))
      → (pack malloc none (p ∷ ps) >>= λ input.
          request_status (serve malloc f db fd) c s input cases internal_error w)
        ≡ answered_by cases internal_error value w'
  unfolding request_status rid_status rid
  status-sent c s command cases p ps w w' value routed sendable r handled =
      let sent =
        answers-sent malloc malloc_length f (handle db command fd) p (pair (bytes "rid") value) ps
          [] w w' sendable (rid-Sendable f value enough r) handled in
      rw sent.2 (
        rw (routed sent.0)
          (rw sent.3 (rw (check_rid-items value sent.1 r) (bind_assoc (atoi value) _ _))))

  abbrev delete_pair : Text → List Pair
  delete_pair del_uuid = pair (bytes "del_uuid") del_uuid ∷ []

  delete_args :
      (old_pwd del_uuid : Text) (rest : List ℕ) (w : World D)
      → AllTexts (pair (bytes "check_pwd") old_pwd ∷ delete_pair del_uuid)
      → 0 < length old_pwd
      → 0 < length del_uuid
      → handle db account_delete fd
          (some (items (pair (bytes "check_pwd") old_pwd ∷ delete_pair del_uuid) rest))
          w
        ≡ delete_fields db fd w (some old_pwd) (some del_uuid)
  unfolding handle req_account_delete bytes starts_with
  delete_args old_pwd del_uuid rest w t h k =
      let ps = pair (bytes "check_pwd") old_pwd ∷ delete_pair del_uuid in
      rw
        (
          arg-items ps rest (bytes "check_pwd") t (omega arith),
          arg-items ps rest (bytes "del_uuid") t (omega arith),
          unless_empty-some old_pwd h,
          unless_empty-some del_uuid k,
        )
        refl

  routed_delete :
      (input : Option Buffer) (w : World D)
      → serve malloc f db fd 2 4 input w ≡ answers malloc f (handle db account_delete fd) input w
  unfolding serve callback command_at served processor handles add_cb register_all register_each
      register category sub_category address
  routed_delete input w = refl

  -- A call of `mc_account_delete` of an admin, with a password and a name that come through, comes
  -- to the handler's deletion with that password and that name, where this answers a `rid` alone:
  -- the state of the service is that after it, and the status is the one for that `rid`.
  pub mc_account_delete-served :
      (session : Session) (old_pwd del_uuid value : Text) (w w' : World D)
      → session.b_is_admin ≡ true
      → Sendable f (pair (bytes "check_pwd") old_pwd) (delete_pair del_uuid)
      → 0 < length old_pwd
      → 0 < length del_uuid
      → IsRid value
      → delete_fields db fd w (some old_pwd) (some del_uuid) ≡ ok (rid value, w')
      → mc_account_delete malloc
          (serve malloc f db fd)
          (some session)
          (some old_pwd)
          (some del_uuid)
          w
        ≡ answered_by delete_cases internal_error value w'
  unfolding mc_account_delete
  mc_account_delete-served session old_pwd del_uuid value w w' admin sendable h k r handled =
      rw admin (
        status-sent 2 4 account_delete delete_cases (pair (bytes "check_pwd") old_pwd)
          (delete_pair del_uuid) w w' value (λ input. routed_delete input w) sendable r
          (λ rest. delete_args old_pwd del_uuid rest w sendable.texts h k ∙ handled))

  create_args :
      (child : Basic) (rest : List ℕ) (w : World D)
      → AllTexts (pair (bytes "uuid") child.uuid ∷ create_pairs child)
      → 0 < length child.uuid
      → 0 < length child.pwd
      → handle db account_create fd
          (some (items (pair (bytes "uuid") child.uuid ∷ create_pairs child) rest))
          w
        ≡ create_fields db fd w
            (some child.uuid)
            (some child.pwd)
            (unless_empty child.nickname)
            (unless_empty child.comment)
  unfolding handle req_account_create create_pairs bytes starts_with
  create_args child rest w t h k =
      let ps = pair (bytes "uuid") child.uuid ∷ create_pairs child in
      rw
        (
          arg-items ps rest (bytes "uuid") t (omega arith),
          arg-items ps rest (bytes "pwd") t (omega arith),
          arg-items ps rest (bytes "nickname") t (omega arith),
          arg-items ps rest (bytes "comment") t (omega arith),
          unless_empty-some child.uuid h,
          unless_empty-some child.pwd k,
        )
        refl

  routed_create :
      (input : Option Buffer) (w : World D)
      → serve malloc f db fd 2 2 input w ≡ answers malloc f (handle db account_create fd) input w
  unfolding serve callback command_at served processor handles add_cb register_all register_each
      register category sub_category address
  routed_create input w = refl

  -- A call of `mc_account_create` of an account that passes its tests, and whose pairs come
  -- through, comes to the handler's creation of that account, without a nickname or comment that
  -- is empty, where this answers a `rid` alone: the state of the service is that after it, and the
  -- status is the one for that `rid`.
  pub mc_account_create-served :
      (session : Session) (child : Basic) (value : Text) (w w' : World D)
      → (valid_name child.uuid
          && valid_name child.pwd
          && valid_optional 64 (some child.nickname)
          && valid_optional 256 (some child.comment))
        ≡ true
      → Sendable f (pair (bytes "uuid") child.uuid) (create_pairs child)
      → 0 < length child.uuid
      → 0 < length child.pwd
      → IsRid value
      → create_fields db fd w
          (some child.uuid)
          (some child.pwd)
          (unless_empty child.nickname)
          (unless_empty child.comment)
        ≡ ok (rid value, w')
      → mc_account_create malloc (serve malloc f db fd) (some session) (some child) w
        ≡ answered_by create_cases internal_error value w'
  unfolding mc_account_create
  mc_account_create-served session child value w w' valid sendable h k r handled = rw valid (
      status-sent 2 2 account_create create_cases (pair (bytes "uuid") child.uuid)
        (create_pairs child) w w' value (λ input. routed_create input w) sendable r
        (λ rest. create_args child rest w sendable.texts h k ∙ handled))
