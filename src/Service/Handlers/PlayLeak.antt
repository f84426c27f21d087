-- ===== src/Service/Handlers/PlayLeak.antt =====
-- The references that the handlers of service_req_play.c do not give back.
use livezure.Prelude.{
  ℕ, ◌+◌, ◌≡◌, refl, Bool, true, false, not, ◌==◌, length, List, Option, none, some, ok, ◌>>=◌,
  guard, failed_assert, Holds, fault-Holds, ok-Holds, bind-Holds, Text, bytes,
}
use livezure.Service.Session as Session
use livezure.Service.Session.{Node, ref, del, check_all, session_at, req_account_logout}
use livezure.Service.Session.Unique.{IsUnique}
use livezure.Service.Session.Keep.{node_of}
use livezure.Service.Session.Leak.{
  AllFresh, Waits, held, node_of-ref, leaked-Waits, logout-marks, ref-IsUnique,
}
use livezure.Service.Database.{Provider}
use livezure.Service.Database.Devices.{device_count}
use livezure.Service.Handlers.{Request, arg, Reply, rid}
use livezure.Service.Handlers.Play.{
  Player, Action, admin_uuid, one_or_none, play, play_uuid, play_as, play_of, play_if,
}

module _ {D : Type 0} (db : Provider D) (action : Action) where
  abbrev pub SameTable : List Node → Reply × Player D → Type 0
  SameTable t (reply, p') = p'.world.table ≡ t

  play_if-table :
      (uuid : Text) (p : Player D) (b : Bool)
      → Holds (SameTable p.world.table) (play_if db action uuid p b)
  unfolding play_if
  play_if-table uuid p false = ok-Holds (SameTable p.world.table) (rid (bytes "-1"), p) refl
  play_if-table uuid p true =
      bind-Holds (SameTable p.world.table) (action uuid p.devices)
        (λ (reply, devices). ok (reply, record p { devices = devices }))
        (λ (reply, devices) e.
          ok-Holds (SameTable p.world.table) (reply, record p { devices = devices }) refl)

  play_as-table :
      (uuid : Text) (p : Player D) (r : Option ℕ)
      → Holds (SameTable p.world.table) (play_as db action uuid p r)
  unfolding play_as play_of
  play_as-table uuid p none = ok-Holds (SameTable p.world.table) (rid (bytes "-300"), p) refl
  play_as-table uuid p (some a) =
      bind-Holds (SameTable p.world.table) (session_at a p.world.table) (play_of db action uuid p)
        (λ session e.
          bind-Holds (SameTable p.world.table)
            (guard (not (length (admin_uuid session) == 0)) failed_assert)
            (λ _. device_count db p.world.database (admin_uuid session) (some uuid) >>= λ count.
              one_or_none count >>= play_if db action uuid p)
            (λ _ e'.
              bind-Holds (SameTable p.world.table)
                (device_count db p.world.database (admin_uuid session) (some uuid))
                (λ count. one_or_none count >>= play_if db action uuid p)
                (λ count e''.
                  bind-Holds (SameTable p.world.table) (one_or_none count)
                    (play_if db action uuid p) (λ found e'''. play_if-table uuid p found))))

  play_uuid-table :
      (fd : ℕ) (p : Player D) (uuid : Option Text)
      → Holds (SameTable (ref fd p.world.table).1) (play_uuid db action fd p uuid)
  unfolding play_uuid
  play_uuid-table fd p none = fault-Holds (SameTable (ref fd p.world.table).1) failed_assert
  play_uuid-table fd p (some uuid) =
      play_as-table uuid (record p { world = record p.world { table = (ref fd p.world.table).1 } })
        (ref fd p.world.table).0

  -- A handler that starts, stops or looks at a device and answers leaves the session of its socket
  -- with one reference more.
  pub play_held :
      (fd : ℕ) (req : Request) (p p' : Player D) (reply : Reply) (n : Node)
      → play db action fd req p ≡ ok (reply, p')
      → node_of fd p.world.table ≡ some n
      → node_of fd p'.world.table ≡ some (record n { refcount = n.refcount + 1 })
  unfolding play held
  play_held fd req p p' reply n e found =
      rw (play_uuid-table fd p (arg req (bytes "uuid")) (reply, p') e)
        (node_of-ref fd p.world.table n found)

  -- After such a handler has answered, the session of its socket can log out; but the next tick
  -- then waits for a reference. No two sessions may conflict or share an address, and before the
  -- request none has logged out and all have shown up since the last tick.
  pub play_logout-Waits :
      (fd : ℕ) (req : Request) (p p' : Player D) (reply : Reply) (n : Node)
      → play db action fd req p ≡ ok (reply, p')
      → node_of fd p.world.table ≡ some n
      → IsUnique p.world.table
      → AllFresh p.world.table
      → (t : List Node) × (req_account_logout fd p'.world.table ≡ ok (Session.Reply.accepted, t))
        × Waits (check_all false t)
  unfolding play
  play_logout-Waits fd req p p' reply n e found u fresh =
      let left = play_uuid-table fd p (arg req (bytes "uuid")) (reply, p') e in
      (
        (del fd (ref fd p.world.table).1).1,
        rw left (
            logout-marks fd (ref fd p.world.table).1 (held n) (ref-IsUnique fd p.world.table u)
              (node_of-ref fd p.world.table n found)),
        leaked-Waits fd p.world.table n fresh found,
      )
