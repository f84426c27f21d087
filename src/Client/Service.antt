-- ===== src/Client/Service.antt =====
-- The service as a `Link`: what is sent arrives as it was (Wire), since `rpc_id_encrypt` is
-- `crypt_type_none`, is parsed and given to the handler of its category, and the reply comes back
-- the same way. The service's threads take the requests one after the other.
use livezure.Prelude.{
  ℕ, suc, ◌^◌, ◌<◌, ◌≡◌, ◌-◌, refl, ap, ◌∙◌, sym, ◌==◌, if◌then◌else◌, true, List, [], ◌∷◌, length,
  arith, Option, none, some, Run, ok, fault, failed_assert, ◌>>=◌, length-take,
}
use livezure.Rpc.Buffer
use livezure.Rpc.Buffer.{Buffer, given}
use livezure.Rpc.Buffer.Append.{IsValid, payload}
use livezure.Rpc.Buffer.New.{new-Copies}
use livezure.Rpc.Crypt.Copies.{new-copied, copied-payload}
use livezure.Rpc.Dispatch.{processor}
use livezure.Rpc.Parser
use livezure.Rpc.Parser.{Item}
use livezure.Rpc.Parser.Stream.{Pair, AllClean, stream}
use livezure.Rpc.Parser.RoundTrip.{items}
use livezure.Rpc.Parser.Lookup.{new-items}
use livezure.Rpc.Parser.Pack.{pack, all_fit, AllTexts, Packs, pack_lem}
use livezure.Service.Api as Api
use livezure.Service.Database.{Provider}
use livezure.Service.Handlers.{Request, Reply, World}
use livezure.Service.Handlers.Commands.{
  Command, account_create, account_modify, account_delete, account_list, device_create,
  device_delete, device_list, handle,
}
use mathlib.Core.Path.{subst}
use livezure.Client.{Link}

-- The commands of the service and where their handlers are registered.
abbrev pub commands : List (Api.Handler × Command)
commands =
    (Api.account_create, account_create)
    ∷ (Api.account_modify, account_modify)
    ∷ (Api.account_delete, account_delete)
    ∷ (Api.account_list, account_list)
    ∷ (Api.device_create, device_create)
    ∷ (Api.device_delete, device_delete)
    ∷ (Api.device_list, device_list)
    ∷ []

unfoldable pub command_at : ℕ → List (Api.Handler × Command) → Option Command
command_at cb [] = none
command_at cb ((h, command) ∷ rest) =
    if Api.address h == cb then some command else command_at cb rest

module _ (malloc : ℕ → List ℕ) (f : ℕ) where
  -- What `rpc_io_enqueue` and `rpc_io_processor` make of a body.
  unfoldable pub received : Option Buffer → Run (Option (List Item))
  received none = ok none
  received (some b) = do
    body ← Buffer.new malloc b.chunk (given b.chunk_used)
    req ← Parser.new f (some body)
    ok (some req)

  unfoldable pub answers :
      {W : Type 0}
      → (Request → W → Run (Reply × W))
      → Option Buffer
      → W
      → Run (Option (List Item) × W)
  answers handler input w = do
    req ← received input
    (reply, w') ← handler req w
    out ← pack malloc none reply
    answer ← received out
    ok (answer, w')

  module _ {D : Type 0} (db : Provider D) (fd : ℕ) where
    -- The handler of a callback; the other handlers are left out.
    unfoldable pub served : Option Command → Request → World D → Run (Reply × World D)
    served none req w = fault failed_assert
    served (some command) req w = handle db command fd req w

    -- The callback that `rpc_dispatch_processor` finds.
    unfoldable pub callback : ℕ → ℕ → Option ℕ
    callback category sub_category =
        (processor
          (λ cb opaque fd (req : Request). record { response = some cb; b_req_reclaim = true })
          category sub_category fd none (Api.register_all [])).response

    unfoldable pub called : Option ℕ → Option Command
    called none = none
    called (some cb) = command_at cb commands

    unfoldable pub serve : Link (World D)
    unfolding called callback
    serve category sub_category input w =
        answers (served (called (callback category sub_category))) input w

-- A body that comes through.
pub record Sendable (f : ℕ) (p : Pair) (ps : List Pair) : Type 0 where
  pub texts : AllTexts (p ∷ ps)
  pub fits : all_fit 60 ps ≡ true
  pub few : length (p ∷ ps) < f
  pub short : length (stream (p ∷ ps)) < 2 ^ 30

AllTexts-AllClean : (ps : List Pair) → AllTexts ps → AllClean ps
AllTexts-AllClean [] t = tt
AllTexts-AllClean (p ∷ ps) t = (t.0, AllTexts-AllClean ps t.2)

module _ (malloc : ℕ → List ℕ) (malloc_length : (n : ℕ) → length (malloc n) ≡ n) (f : ℕ) where
  -- A copy of the memory is that of the stream.
  new-payload :
      (b : Buffer)
      → IsValid b
      → 0 < b.chunk_used
      → Buffer.new malloc b.chunk (given b.chunk_used)
        ≡ Buffer.new malloc (payload b) (given (length (payload b)))
  new-payload b v pos =
      let n = length-take b.chunk_used b.chunk in
      new-copied malloc malloc_length b.chunk b.chunk_used pos (omega arith)
      ∙ ap ok (sym (copied-payload malloc b.chunk b.chunk_used (omega arith)))
      ∙ sym (
          new-copied malloc malloc_length (payload b) (length (payload b)) (omega arith)
            (omega arith))

  -- A copy of a stream is parsed into its pairs.
  pub copy-items :
      (p : Pair) (ps : List Pair)
      → Sendable f p ps
      → (n : ℕ) × (length (stream (p ∷ ps)) ≡ suc n)
        × (after : Buffer) × (rest : List ℕ) × (Buffer.new malloc (stream (p ∷ ps)) (given (suc n))
            ≡ ok after)
        × (Parser.new f (some after) ≡ ok (items (p ∷ ps) rest))
  copy-items p ps s =
      let m = length (stream (p ∷ ps)) - 1 in
      let sized : length (stream (p ∷ ps)) ≡ suc m = omega arith in
      let c = new-Copies malloc malloc_length (stream (p ∷ ps)) m sized in
      (
        m,
        sized,
        c.after,
        0 ∷ c.behind,
        c.returns,
        new-items (p ∷ ps) (0 ∷ c.behind) f c.after (AllTexts-AllClean (p ∷ ps) s.texts) c.holds
            c.used (omega (arith, c.used, s.short)) refl s.few,
      )

  pub packs :
      (p : Pair) (ps : List Pair)
      → Sendable f p ps
      → (b : Buffer) × (pack malloc none (p ∷ ps) ≡ ok (some b))
        × IsValid b
        × (payload b ≡ stream (p ∷ ps))
  packs p ps s =
      subst (λ t. Packs t (stream (p ∷ ps)) (pack malloc none (p ∷ ps))) s.fits
        (pack_lem malloc malloc_length p ps s.texts)

  received-payload :
      (b : Buffer) (p : Pair) (ps : List Pair)
      → Sendable f p ps
      → IsValid b
      → payload b ≡ stream (p ∷ ps)
      → (rest : List ℕ) × (received malloc f (some b) ≡ ok (some (items (p ∷ ps) rest)))
  unfolding received
  received-payload b p ps s v held =
      let size = ap length held in
      let c = copy-items p ps s in
      let made : Buffer.new malloc b.chunk (given b.chunk_used) ≡ ok c.2 =
        new-payload b v (omega (arith, length-take b.chunk_used b.chunk, c.1))
        ∙ ap (λ t. Buffer.new malloc t (given (length t))) held
        ∙ ap (λ k. Buffer.new malloc (stream (p ∷ ps)) (given k)) c.1
        ∙ c.4 in
      (c.3, rw made (rw c.5 refl))

  received-pack :
      (p : Pair) (ps : List Pair)
      → Sendable f p ps
      → (input : Option Buffer) × (rest : List ℕ) × (pack malloc none (p ∷ ps) ≡ ok input)
        × (received malloc f input ≡ ok (some (items (p ∷ ps) rest)))
  received-pack p ps s =
      let b = packs p ps s in
      let r = received-payload b.0 p ps s b.2 b.3 in (some b.0, r.0, b.1, r.1)

  -- A request to a handler, and its reply, both of which come through.
  pub answers-sent :
      {W : Type 0} (handler : Request → W → Run (Reply × W)) (p r : Pair) (ps rs : List Pair)
      (w w' : W)
      → Sendable f p ps
      → Sendable f r rs
      → ((rest : List ℕ) → handler (some (items (p ∷ ps) rest)) w ≡ ok (r ∷ rs, w'))
      → (input : Option Buffer) × (rest : List ℕ) × (pack malloc none (p ∷ ps) ≡ ok input)
        × (answers malloc f handler input w ≡ ok (some (items (r ∷ rs) rest), w'))
  unfolding answers
  answers-sent handler p r ps rs w w' s t handled =
      let there = received-pack p ps s in
      let back = received-pack r rs t in
      (there.0, back.1, there.2, rw there.3 (rw (handled there.1) (rw back.2 (rw back.3 refl))))
