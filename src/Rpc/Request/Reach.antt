-- ===== src/Rpc/Request/Reach.antt =====
-- Requests that are made, answered and destroyed in any order, no call during another: the callbacks are always those of the
-- handles, so that no reply comes to a handle that is freed, and no handle is destroyed twice.
use livezure.Prelude.{
  out_of_range, ◌<◌, fault, ◌>>◌, guard, not, failed_assert, ℕ, ◌≡◌, refl, ap, ◌∙◌, sym, ◌==◌,
  if◌then◌else◌, true, false, Bool-cases, inl, inr, List, [], ◌∷◌, ◌++◌, arith, Option, none, some,
  Run, ok, ◌>>=◌,
}
use mathlib.Core.List.{map}
use mathlib.Core.Path.{subst}
use livezure.Rpc.Parser.{Item}
use livezure.Rpc.Dispatch as Dispatch
use livezure.Rpc.Dispatch.{Dispatcher}
use livezure.Rpc.Request.{
  Handle, Pending, default_dispatcher, handle_at, put_req, free, rpc_default_dispatcher, opaque_for,
  deliver_to, deliver, register, rpc_request_destroy,
}

abbrev pub fresh : ℕ → ℕ → ℕ → Handle
fresh a category sub_category = record {
  address = a;
  req = none;
  category = category;
  sub_category = sub_category;
}

abbrev pub callback_of : Handle → Dispatcher
callback_of h = record {
  cb = default_dispatcher;
  opaque = h.address;
  category = h.category;
  sub_category = h.sub_category;
}

-- What the threads of a client do to the requests, one call behind the other; a new handle has an
-- address of its own.
pub data Step : Pending → Pending → Type 0 where
  makes :
      {s : Pending}
      → (a category sub_category : ℕ) → handle_at a s.handles ≡ fault out_of_range
      → Step s (register a category sub_category s)
  gets :
      {s s' : Pending}
      → (category sub_category fd : ℕ) (req : Option (List Item))
      → deliver category sub_category fd req s ≡ ok s'
      → Step s s'
  destroys : {s s' : Pending} → (a : ℕ) → rpc_request_destroy a s ≡ ok s' → Step s s'

pub data Reach : Pending → Type 0 where
  none_yet : Reach (record { table = []; handles = [] })
  one_more : {s s' : Pending} → Reach s → Step s s' → Reach s'

abbrev pub Matches : Pending → Type 0
Matches s = s.table ≡ map callback_of s.handles

map-snoc :
    (hs : List Handle) (h : Handle)
    → map callback_of (hs ++ (h ∷ [])) ≡ map callback_of hs ++ (callback_of h ∷ [])
map-snoc [] h = refl
map-snoc (x ∷ hs) h = ap (λ t. callback_of x ∷ t) (map-snoc hs h)

-- Handles with the same callbacks, where there are any.
abbrev SameCallbacks : List Handle → Run (List Handle) → Type 0
SameCallbacks hs (fault why) = Unit
SameCallbacks hs (ok hs') = map callback_of hs' ≡ map callback_of hs

SameCallbacks-cons :
    (h : Handle) (hs : List Handle) (out : Run (List Handle))
    → SameCallbacks hs out
    → SameCallbacks (h ∷ hs) (out >>= λ rest'. ok (h ∷ rest'))
SameCallbacks-cons h hs (fault why) k = tt
SameCallbacks-cons h hs (ok hs') k = ap (λ t. callback_of h ∷ t) k

put_req-SameCallbacks :
    (a : ℕ) (req : Option (List Item)) (hs : List Handle) → SameCallbacks hs (put_req a req hs)
unfolding put_req
put_req-SameCallbacks a req [] = tt
put_req-SameCallbacks a req (h ∷ hs) =
    elim (h.address == a)
      as (λ same. SameCallbacks (h ∷ hs) (
        if same
        then ok (record h { req = req } ∷ hs)
        else put_req a req hs >>= λ rest'. ok (h ∷ rest'))) [
          | true ↦ refl
          | false ↦ SameCallbacks-cons h hs (put_req a req hs) (put_req-SameCallbacks a req hs)
        ]

-- The handle that is found has its callback, and both can be removed.
abbrev Removes : ℕ → List Handle → Run Handle → Type 0
Removes a hs (fault why) = Unit
Removes a hs (ok h) =
    Dispatch.del_cb h.category h.sub_category default_dispatcher a (map callback_of hs)
    ≡ ok (map callback_of (free a hs))

Removes-cons :
    (a : ℕ) (x : Handle) (hs : List Handle) (out : Run Handle)
    → x.address == a ≡ false
    → Removes a hs out
    → Removes a (x ∷ hs) out
unfolding free Dispatch.handles Dispatch.del_cb
Removes-cons a x hs (fault why) other k = tt
Removes-cons a x hs (ok h) other k = ground (arith, k)

handle_at-Removes : (a : ℕ) (hs : List Handle) → Removes a hs (handle_at a hs)
unfolding handle_at free Dispatch.handles Dispatch.del_cb
handle_at-Removes a [] = tt
handle_at-Removes a (x ∷ hs) =
    elim (Bool-cases (x.address == a)) as (λ t. Removes a (x ∷ hs) (handle_at a (x ∷ hs))) [
      | inl same ↦ rw same (ground arith)
      | inr other ↦
          ground (arith, Removes-cons a x hs (handle_at a hs) other (handle_at-Removes a hs))
    ]

-- A call whose result has callbacks that match again.
abbrev Kept : Run Pending → Type 0
Kept (fault why) = Unit
Kept (ok s) = Matches s

put_req-Kept :
    (fd : ℕ) (s : Pending) (out : Run (List Handle))
    → Matches s
    → SameCallbacks s.handles out
    → Kept (
        out >>= λ handles.
        guard (not (fd == 0)) failed_assert >> ok (record s { handles = handles }))
put_req-Kept fd s (fault why) m k = tt
put_req-Kept fd s (ok handles) m k =
    elim (not (fd == 0))
      as (λ t. Kept (guard t failed_assert >> ok (record s { handles = handles }))) [
        | true ↦ m ∙ sym k
        | false ↦ tt
      ]

deliver_to-Kept :
    (opaque : Option ℕ) (fd : ℕ) (req : Option (List Item)) (s : Pending)
    → Matches s
    → Kept (deliver_to opaque fd req s)
unfolding deliver_to rpc_default_dispatcher
deliver_to-Kept none fd req s m = m
deliver_to-Kept (some a) fd req s m =
    put_req-Kept fd s (put_req a req s.handles) m (put_req-SameCallbacks a req s.handles)

destroy-Kept :
    (a : ℕ) (s : Pending) (out : Run Handle)
    → Matches s
    → Removes a s.handles out
    → Kept (
        out >>= λ h.
        Dispatch.del_cb h.category h.sub_category default_dispatcher a s.table >>= λ table.
        ok (record { table = table; handles = free a s.handles }))
destroy-Kept a s (fault why) m k = tt
destroy-Kept a s (ok h) m k =
    subst (λ t. Kept (t >>= λ table. ok (record { table = table; handles = free a s.handles })))
      (sym (ap (Dispatch.del_cb h.category h.sub_category default_dispatcher a) m ∙ k)) refl

pub Reach-Matches : {s : Pending} → Reach s → Matches s
unfolding register Dispatch.add_cb rpc_request_destroy deliver
Reach-Matches none_yet = refl
Reach-Matches (one_more {s} r (makes a category sub_category new)) =
    ap (λ t. t ++ (callback_of (fresh a category sub_category) ∷ [])) (Reach-Matches r)
    ∙ sym (map-snoc s.handles (fresh a category sub_category))
Reach-Matches (one_more {s} r (gets category sub_category fd req e)) =
    subst Kept e
      (deliver_to-Kept (opaque_for category sub_category s.table) fd req s (Reach-Matches r))
Reach-Matches (one_more {s} r (destroys a e)) =
    subst Kept e
      (destroy-Kept a s (handle_at a s.handles) (Reach-Matches r) (handle_at-Removes a s.handles))

-- Where a handle's callback is found, its request can be kept.
abbrev CanKeep : Option (List Item) → List Handle → Option ℕ → Type 0
CanKeep req hs none = Unit
CanKeep req hs (some a) = (hs' : List Handle) × (put_req a req hs ≡ ok hs')

CanKeep-cons :
    (req : Option (List Item)) (h : Handle) (hs : List Handle) (opaque : Option ℕ)
    → CanKeep req hs opaque
    → CanKeep req (h ∷ hs) opaque
unfolding put_req
CanKeep-cons req h hs none k = tt
CanKeep-cons req h hs (some a) k =
    elim (h.address == a)
      as (λ same.
        (hs' : List Handle) × ((if same
            then ok (record h { req = req } ∷ hs)
            else put_req a req hs >>= λ rest'. ok (h ∷ rest'))
          ≡ ok hs')) [ true ↦ (record h { req = req } ∷ hs, refl) | false ↦ (h ∷ k.0, rw k.1 refl) ]

opaque_for-CanKeep :
    (category sub_category : ℕ) (req : Option (List Item)) (hs : List Handle)
    → CanKeep req hs (opaque_for category sub_category (map callback_of hs))
unfolding opaque_for Dispatch.handles put_req
opaque_for-CanKeep category sub_category req [] = tt
opaque_for-CanKeep category sub_category req (h ∷ hs) =
    elim (Dispatch.handles category sub_category (callback_of h))
      as (λ mine.
        CanKeep req (h ∷ hs) (
          if mine then some h.address else opaque_for category sub_category (map callback_of hs))) [
            | true ↦ (record h { req = req } ∷ hs, ground arith)
            | false ↦ CanKeep-cons req h hs _ (opaque_for-CanKeep category sub_category req hs)
          ]

deliver_to_lem :
    (opaque : Option ℕ) (fd : ℕ) (req : Option (List Item)) (s : Pending)
    → 0 < fd
    → CanKeep req s.handles opaque
    → (s' : Pending) × (deliver_to opaque fd req s ≡ ok s')
unfolding deliver_to rpc_default_dispatcher
deliver_to_lem none fd req s pos k = (s, refl)
deliver_to_lem (some a) fd req s pos k = (record s { handles = k.0 }, rw k.1 (ground arith))

-- However requests were made, answered and destroyed before, each call behind the other: a reply of
-- any category that arrives, with a body or without, is taken without a fault, the descriptor not
-- being 0, and a handle that is allocated can be destroyed.
pub calls_return :
    (s : Pending) (category sub_category fd a : ℕ) (req : Option (List Item)) (h : Handle)
    → Reach s
    → 0 < fd
    → handle_at a s.handles ≡ ok h
    → ((s' : Pending) × (deliver category sub_category fd req s ≡ ok s'))
      × ((s' : Pending) × (rpc_request_destroy a s ≡ ok s'))
unfolding deliver rpc_request_destroy
calls_return s category sub_category fd a req h r pos found =
    let m = Reach-Matches r in
    let removed = subst (Removes a s.handles) found (handle_at-Removes a s.handles) in
    (
      deliver_to_lem (opaque_for category sub_category s.table) fd req s pos (
          subst (λ t. CanKeep req s.handles (opaque_for category sub_category t)) (sym m)
            (opaque_for-CanKeep category sub_category req s.handles)),
      (
        record { table = map callback_of (free a s.handles); handles = free a s.handles },
        rw found (
            rw (ap (Dispatch.del_cb h.category h.sub_category default_dispatcher a) m ∙ removed)
              refl),
      ),
    )
