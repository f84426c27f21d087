-- ===== src/Client/Welcome.antt =====
-- The session that the client makes of the reply to its login.
use livezure.Prelude.{
  ltb, ◌&&◌, ℕ, ◌<◌, ◌≤◌, ◌≡◌, refl, if◌then◌else◌, Bool, true, false, List, [], ◌∷◌, length, arith,
  Option, none, some, ok, Text, bytes, atoi, decimal, atoi-decimal, sprintf, starts_with, digits,
  read_digits, positive,
}
use livezure.Rpc.Buffer.{Buffer}
use livezure.Rpc.Parser.Stream.{Pair, IsClean}
use livezure.Rpc.Parser.RoundTrip.{items}
use livezure.Rpc.Parser.Pack.{pack, IsText, AllTexts}
use livezure.Common.Timer.{Timer, create}
use livezure.Service.Handlers.{pair, rid}
use livezure.Service.Handlers.Args.{arg-items, first_text, unless_empty-some}
use livezure.Service.Handlers.Platform.{login_reply}
use livezure.Client.{mc_ok, Link, check_rid, check_number, finish, is_fault, request}
use livezure.Client.Account.{
  child_of, login_admin, welcomed, read_login, new_session, heartbeat_clock, mc_account_login,
}

-- The pairs of a login.
abbrev pub login_pairs : Text → Text → ℕ → List Pair
login_pairs uuid pwd pid =
    pair (bytes "uuid") uuid ∷ pair (bytes "pwd") pwd ∷ pair (bytes "pid") (decimal pid) ∷ []

abbrev pub own_admin : Bool → Text → Text
own_admin true ref_admin_uuid = []
own_admin false ref_admin_uuid = ref_admin_uuid

rid-IsClean : IsClean (bytes "rid")
unfolding bytes
rid-IsClean = omega arith

is_admin-IsClean : IsClean (bytes "is_admin")
unfolding bytes
is_admin-IsClean = omega arith

admin-IsClean : IsClean (bytes "ref_admin_uuid")
unfolding bytes
admin-IsClean = omega arith

own_short :
    (b : Bool) (ref_admin_uuid : Text)
    → length ref_admin_uuid ≤ 16
    → length (own_admin b ref_admin_uuid) ≤ 16
own_short true ref_admin_uuid v = omega arith
own_short false ref_admin_uuid v = v

reply_texts :
    (b : Bool) (ref_admin_uuid : Text)
    → IsText ref_admin_uuid
    → AllTexts (login_reply b ref_admin_uuid)
unfolding login_reply rid bytes decimal digits
reply_texts true ref_admin_uuid t = omega arith
reply_texts false ref_admin_uuid t =
    (rid-IsClean, omega arith, (is_admin-IsClean, omega arith, (admin-IsClean, t, tt)))

first_rid :
    (b : Bool) (ref_admin_uuid : Text)
    → first_text (bytes "rid") (login_reply b ref_admin_uuid) ≡ some (bytes "0")
unfolding login_reply rid bytes starts_with
first_rid b ref_admin_uuid = refl

first_admin :
    (b : Bool) (ref_admin_uuid : Text)
    → first_text (bytes "is_admin") (login_reply b ref_admin_uuid)
      ≡ some (decimal (if b then 1 else 0))
unfolding login_reply rid bytes starts_with decimal digits
first_admin true ref_admin_uuid = refl
first_admin false ref_admin_uuid = refl

first_child :
    (ref_admin_uuid : Text)
    → 0 < length ref_admin_uuid
    → first_text (bytes "ref_admin_uuid") (login_reply false ref_admin_uuid) ≡ some ref_admin_uuid
unfolding login_reply rid bytes starts_with
first_child ref_admin_uuid h = unless_empty-some ref_admin_uuid h

atoi_zero : atoi (bytes "0") ≡ ok 0
unfolding bytes atoi read_digits positive
atoi_zero = refl

login_admin-reply :
    (b : Bool) (ref_admin_uuid : Text) (rest : List ℕ)
    → IsText ref_admin_uuid
    → 0 < length ref_admin_uuid
    → login_admin (items (login_reply b ref_admin_uuid) rest) (some (decimal (if b then 1 else 0)))
      ≡ ok (some (b, own_admin b ref_admin_uuid))
unfolding login_admin child_of
login_admin-reply true ref_admin_uuid rest t h = rw (atoi-decimal 1 (omega arith)) refl
login_admin-reply false ref_admin_uuid rest t h =
    rw
      (
        atoi-decimal 0 (omega arith),
        arg-items (login_reply false ref_admin_uuid) rest (bytes "ref_admin_uuid")
            (reply_texts false ref_admin_uuid t) admin-IsClean,
        first_child ref_admin_uuid h,
      )
      refl

read_login-reply :
    (b : Bool) (ref_admin_uuid : Text) (rest : List ℕ)
    → IsText ref_admin_uuid
    → 0 < length ref_admin_uuid
    → read_login (some (items (login_reply b ref_admin_uuid) rest))
      ≡ ok (mc_ok, some (b, own_admin b ref_admin_uuid))
unfolding read_login check_rid check_number welcomed
read_login-reply b ref_admin_uuid rest t h =
    let texts = reply_texts b ref_admin_uuid t in
    let ps = login_reply b ref_admin_uuid in
    rw
      (
        arg-items ps rest (bytes "rid") texts rid-IsClean,
        first_rid b ref_admin_uuid,
        atoi_zero,
        arg-items ps rest (bytes "is_admin") texts is_admin-IsClean,
        first_admin b ref_admin_uuid,
        login_admin-reply b ref_admin_uuid rest t h,
      )
      refl

module _ (malloc : ℕ → List ℕ) {S : Type 0} (link : Link S) where
  -- A login that the service accepts, of a user whose admin has a name of 16 bytes at most, as has
  -- the user: the client has a session with the name of the login and with the rights of the
  -- reply, and its timer stands last. The number of the platform has less than eight characters,
  -- and the body of the request can be built; the comparison of keys stops at their first
  -- difference.
  pub mc_account_login-welcome :
      (b : Bool) (uuid pwd ref_admin_uuid : Text) (pid sess timer : ℕ) (clocks : List Timer)
      (input : Option Buffer) (rest : List ℕ) (s s' : S)
      → IsText ref_admin_uuid
      → 0 < length ref_admin_uuid
      → length uuid ≤ 16
      → length ref_admin_uuid ≤ 16
      → length (decimal pid) < 8
      → pack malloc none (login_pairs uuid pwd pid) ≡ ok input
      → link 2 0 input s ≡ ok (some (items (login_reply b ref_admin_uuid) rest), s')
      → mc_account_login malloc link (some uuid) (some pwd) pid sess timer clocks s
        ≡ ok (
          mc_ok,
          (
            some (record {
              uuid = uuid;
              b_is_admin = b;
              ref_admin_uuid = own_admin b ref_admin_uuid;
              auto_heartbeat = timer;
            }),
            create heartbeat_clock sess 5000 false timer clocks,
          ),
          s',
        )
  unfolding mc_account_login request sprintf finish is_fault new_session
  mc_account_login-welcome b uuid pwd ref_admin_uuid pid sess timer clocks input rest s s' t h u v
        few packed answered =
      let own = own_short b ref_admin_uuid v in
      let names : (ltb (length uuid) 17 && ltb (length (own_admin b ref_admin_uuid)) 17) ≡ true =
        ground (arith, u, own) in
      let printed : sprintf 8 (decimal pid) ≡ ok (decimal pid) = ground arith in
      rw (printed, packed, answered, read_login-reply b ref_admin_uuid rest t h, names) refl
