-- ===== src/Rpc/Request/Race.antt =====
-- A request that is destroyed between the two halves of `rpc_dispatch_processor`, which finds the
-- callback and then calls it, with no lock on the list.
use livezure.Prelude.{
  ◌≢◌, ℕ, ◌≡◌, refl, ap, ◌∙◌, sym, ◌==◌, if◌then◌else◌, true, false, Bool-cases, inl, inr, List, [],
  ◌∷◌, ◌++◌, arith, Option, none, some, ok, fault, out_of_range, >>=-eq-ok,
}
use mathlib.Core.List.{map}
use mathlib.Core.Path.{subst}
use livezure.Rpc.Parser.{Item}
use livezure.Rpc.Dispatch as Dispatch
use livezure.Rpc.Dispatch.{Dispatcher}
use livezure.Rpc.Request.{
  Handle, Pending, default_dispatcher, handle_at, put_req, free, rpc_default_dispatcher, opaque_for,
  deliver_to, deliver, register, rpc_request_destroy,
}
use livezure.Rpc.Request.Reach.{
  Reach, none_yet, one_more, makes, gets, destroys, callback_of, fresh, Reach-Matches,
}

-- No callback is of a handle at an address, and no two are of one handle.
abbrev Lacks : ℕ → List Dispatcher → Type 0
Lacks a [] = Unit
Lacks a (d ∷ rest) = (d.opaque ≢ a) × Lacks a rest

abbrev AllApart : List Dispatcher → Type 0
AllApart [] = Unit
AllApart (d ∷ rest) = Lacks d.opaque rest × AllApart rest

new-Lacks :
    (a : ℕ) (hs : List Handle) → handle_at a hs ≡ fault out_of_range → Lacks a (map callback_of hs)
unfolding handle_at
new-Lacks a [] new = tt
new-Lacks a (h ∷ hs) new = elim (Bool-cases (h.address == a)) [
  | inl e ↦ absurd (ground (arith, new, e))
  | inr e ↦ (ground (arith, e), new-Lacks a hs (ground (arith, new, e)))
]

Lacks-snoc :
    (a : ℕ) (table : List Dispatcher) (d : Dispatcher)
    → Lacks a table
    → d.opaque ≢ a
    → Lacks a (table ++ (d ∷ []))
Lacks-snoc a [] d lacks other = (other, tt)
Lacks-snoc a (x ∷ table) d lacks other = (lacks.0, Lacks-snoc a table d lacks.1 other)

AllApart-snoc :
    (table : List Dispatcher) (d : Dispatcher)
    → AllApart table
    → Lacks d.opaque table
    → AllApart (table ++ (d ∷ []))
AllApart-snoc [] d apart lacks = (tt, tt)
AllApart-snoc (x ∷ table) d apart lacks = (
  Lacks-snoc x.opaque table d apart.0 (λ e. lacks.0 (sym e)),
  AllApart-snoc table d apart.1 lacks.1,
)

free-Lacks :
    (a b : ℕ) (hs : List Handle)
    → Lacks b (map callback_of hs)
    → Lacks b (map callback_of (free a hs))
unfolding free
free-Lacks a b [] lacks = tt
free-Lacks a b (h ∷ hs) lacks =
    elim (h.address == a)
      as (λ same. Lacks b (map callback_of (if same then hs else h ∷ free a hs))) [
        | true ↦ lacks.1
        | false ↦ (lacks.0, free-Lacks a b hs lacks.1)
      ]

free-AllApart :
    (a : ℕ) (hs : List Handle)
    → AllApart (map callback_of hs)
    → AllApart (map callback_of (free a hs))
unfolding free
free-AllApart a [] apart = tt
free-AllApart a (h ∷ hs) apart =
    elim (h.address == a)
      as (λ same. AllApart (map callback_of (if same then hs else h ∷ free a hs))) [
        | true ↦ apart.1
        | false ↦ (free-Lacks a h.address hs apart.0, free-AllApart a hs apart.1)
      ]

freed-Lacks :
    (a : ℕ) (hs : List Handle)
    → AllApart (map callback_of hs)
    → Lacks a (map callback_of (free a hs))
unfolding free
freed-Lacks a [] apart = tt
freed-Lacks a (h ∷ hs) apart =
    elim (Bool-cases (h.address == a)) as (λ t. Lacks a (map callback_of (free a (h ∷ hs)))) [
      | inl e ↦
          let here : h.address ≡ a = ground (arith, e) in
          rw e (subst (λ n. Lacks n (map callback_of hs)) here apart.0)
      | inr e ↦
          let other : h.address ≢ a = ground (arith, e) in rw e (other, freed-Lacks a hs apart.1)
    ]

put_req-Lacks :
    (a : ℕ) (req : Option (List Item)) (hs : List Handle)
    → Lacks a (map callback_of hs)
    → put_req a req hs ≡ fault out_of_range
unfolding put_req
put_req-Lacks a req [] lacks = refl
put_req-Lacks a req (h ∷ hs) lacks =
    let e : (h.address == a) ≡ false = ground (arith, lacks.0) in
    rw (e, put_req-Lacks a req hs lacks.1) refl

destroy-handles :
    (a : ℕ) (s s' : Pending) → rpc_request_destroy a s ≡ ok s' → s'.handles ≡ free a s.handles
unfolding rpc_request_destroy
destroy-handles a s s' e =
    let found = >>=-eq-ok (handle_at a s.handles) _ e in
    let removed =
      >>=-eq-ok (Dispatch.del_cb found.0.category found.0.sub_category default_dispatcher a s.table)
        _ found.2 in
    let last = removed.2 in cc

deliver_to-table :
    (opaque : Option ℕ) (fd : ℕ) (req : Option (List Item)) (s s' : Pending)
    → deliver_to opaque fd req s ≡ ok s'
    → s'.table ≡ s.table
unfolding deliver_to rpc_default_dispatcher
deliver_to-table none fd req s s' e = cc
deliver_to-table (some a) fd req s s' e =
    let kept = >>=-eq-ok (put_req a req s.handles) _ e in
    let checked = kept.2 in ground (arith, checked)

destroy-AllApart :
    (a : ℕ) {s s' : Pending}
    → Reach s
    → AllApart s.table
    → rpc_request_destroy a s ≡ ok s'
    → AllApart s'.table
destroy-AllApart a {s} {s'} r apart e =
    let m = Reach-Matches (one_more r (destroys a e)) in
    subst AllApart (sym (m ∙ ap (map callback_of) (destroy-handles a s s' e)))
      (free-AllApart a s.handles (subst AllApart (Reach-Matches r) apart))

Reach-AllApart : {s : Pending} → Reach s → AllApart s.table
unfolding register Dispatch.add_cb deliver
Reach-AllApart none_yet = tt
Reach-AllApart (one_more {s} r (makes a category sub_category new)) =
    AllApart-snoc s.table (callback_of (fresh a category sub_category)) (Reach-AllApart r)
      (subst (Lacks a) (sym (Reach-Matches r)) (new-Lacks a s.handles new))
Reach-AllApart (one_more {s} {s'} r (gets category sub_category fd req e)) =
    subst AllApart (sym (deliver_to-table (opaque_for category sub_category s.table) fd req s s' e))
      (Reach-AllApart r)
Reach-AllApart (one_more r (destroys a e)) = destroy-AllApart a r (Reach-AllApart r) e

-- However requests were made, answered and destroyed before, each call behind the other: where a
-- reply finds the callback of a handle, and the handle is destroyed before that callback is called,
-- the call stores into memory that is no handle any more.
pub destroyed_between :
    (s s' : Pending) (category sub_category fd a : ℕ) (req : Option (List Item))
    → Reach s
    → opaque_for category sub_category s.table ≡ some a
    → rpc_request_destroy a s ≡ ok s'
    → deliver_to (opaque_for category sub_category s.table) fd req s' ≡ fault out_of_range
unfolding deliver_to rpc_default_dispatcher
destroyed_between s s' category sub_category fd a req r found destroyed =
    let gone : Lacks a (map callback_of s'.handles) =
      subst (λ hs. Lacks a (map callback_of hs)) (sym (destroy-handles a s s' destroyed))
        (freed-Lacks a s.handles (subst AllApart (Reach-Matches r) (Reach-AllApart r))) in
    rw (found, put_req-Lacks a req s'.handles gone) refl
