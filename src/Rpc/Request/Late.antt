-- ===== src/Rpc/Request/Late.antt =====
-- A reply that arrives after its request was given up, and two requests of one category.
use livezure.Prelude.{
  false, true, not, sym, ◌≢◌, ℕ, ◌≡◌, ◌<◌, refl, List, [], ◌∷◌, ◌++◌, arith, Option, none, some, ok,
  fault, out_of_range, ◌>>=◌, Bool-cases, inl, inr, ◌==◌, append_assoc, append-nil,
}
use livezure.Rpc.Parser.{Item}
use livezure.Rpc.Dispatch as Dispatch
use livezure.Rpc.Dispatch.{Dispatcher}
use livezure.Rpc.Request.{
  Handle, Pending, default_dispatcher, handle_at, put_req, free, rpc_default_dispatcher, opaque_for,
  deliver_to, deliver, register, rpc_request_destroy, rpc_request_ok,
}
use livezure.Rpc.Request.Reach.{callback_of, fresh}

-- Behind handles that have not an address stands one that has it.
module _ (a : ℕ) (h : Handle) (rest : List Handle) (here : h.address ≡ a) where
  handle_at-behind :
      (hs : List Handle)
      → handle_at a hs ≡ fault out_of_range
      → handle_at a (hs ++ (h ∷ rest)) ≡ ok h
  unfolding handle_at
  handle_at-behind [] none_there = let e : (h.address == a) ≡ true = ground arith in rw e refl
  handle_at-behind (x ∷ hs) none_there = elim (Bool-cases (x.address == a)) [
    | inl e ↦ absurd (ground (arith, none_there, e))
    | inr e ↦ rw e (handle_at-behind hs (ground (arith, none_there, e)))
  ]

  put_req-behind :
      (req : Option (List Item)) (hs : List Handle)
      → handle_at a hs ≡ fault out_of_range
      → put_req a req (hs ++ (h ∷ rest)) ≡ ok (hs ++ (record h { req = req } ∷ rest))
  unfolding handle_at put_req
  put_req-behind req [] none_there = let e : (h.address == a) ≡ true = ground arith in rw e refl
  put_req-behind req (x ∷ hs) none_there = elim (Bool-cases (x.address == a)) [
    | inl e ↦ absurd (ground (arith, none_there, e))
    | inr e ↦ rw (e, put_req-behind req hs (ground (arith, none_there, e))) refl
  ]

  free-behind :
      (hs : List Handle)
      → handle_at a hs ≡ fault out_of_range
      → free a (hs ++ (h ∷ rest)) ≡ hs ++ rest
  unfolding handle_at free
  free-behind [] none_there = let e : (h.address == a) ≡ true = ground arith in rw e refl
  free-behind (x ∷ hs) none_there = elim (Bool-cases (x.address == a)) [
    | inl e ↦ absurd (ground (arith, none_there, e))
    | inr e ↦ rw (e, free-behind hs (ground (arith, none_there, e))) refl
  ]

handle_at-other :
    (a : ℕ) (h : Handle) (hs : List Handle)
    → h.address ≢ a
    → handle_at a hs ≡ fault out_of_range
    → handle_at a (hs ++ (h ∷ [])) ≡ fault out_of_range
unfolding handle_at
handle_at-other a h [] other none_there =
    let e : (h.address == a) ≡ false = ground (arith, other) in rw e refl
handle_at-other a h (x ∷ hs) other none_there = elim (Bool-cases (x.address == a)) [
  | inl e ↦ absurd (ground (arith, none_there, e))
  | inr e ↦ rw e (handle_at-other a h hs other (ground (arith, none_there, e)))
]

-- Behind callbacks of other categories.
module _ (a category sub_category : ℕ) (rest : List Dispatcher) where
  its_own :
      Dispatch.handles category sub_category (callback_of (fresh a category sub_category)) ≡ true
  unfolding Dispatch.handles
  its_own = ground arith

  opaque_for-behind :
      (table : List Dispatcher)
      → opaque_for category sub_category table ≡ none
      → opaque_for category sub_category
          (table ++ (callback_of (fresh a category sub_category) ∷ rest))
        ≡ some a
  unfolding opaque_for
  opaque_for-behind [] others = rw its_own refl
  opaque_for-behind (d ∷ table) others =
      elim (Bool-cases (Dispatch.handles category sub_category d)) [
        | inl e ↦ absurd (ground (arith, others, e))
        | inr e ↦ rw e (opaque_for-behind table (ground (arith, others, e)))
      ]

  del_cb-behind :
      (table : List Dispatcher)
      → opaque_for category sub_category table ≡ none
      → Dispatch.del_cb category sub_category default_dispatcher a
          (table ++ (callback_of (fresh a category sub_category) ∷ rest))
        ≡ ok (table ++ rest)
  unfolding opaque_for Dispatch.del_cb
  del_cb-behind [] others = let same : (a == a) ≡ true = ground arith in rw (its_own, same) refl
  del_cb-behind (d ∷ table) others = elim (Bool-cases (Dispatch.handles category sub_category d)) [
    | inl e ↦ absurd (ground (arith, others, e))
    | inr e ↦ rw (e, del_cb-behind table (ground (arith, others, e))) refl
  ]

module _ (s : Pending) (category sub_category : ℕ)
    (alone : opaque_for category sub_category s.table ≡ none) where
  -- A request that is made and destroyed leaves nothing.
  register-destroy :
      (a : ℕ)
      → handle_at a s.handles ≡ fault out_of_range
      → rpc_request_destroy a (register a category sub_category s) ≡ ok s
  unfolding rpc_request_destroy register Dispatch.add_cb
  register-destroy a new =
      let h = fresh a category sub_category in
      rw
        (
          handle_at-behind a h [] refl s.handles new,
          free-behind a h [] refl s.handles new,
          del_cb-behind a category sub_category [] s.table alone,
          append-nil s.table,
          append-nil s.handles,
        )
        refl

  -- A request that is made has no answer; a reply is its answer.
  answered_by :
      (b fd : ℕ) (req : Option (List Item))
      → handle_at b s.handles ≡ fault out_of_range
      → 0 < fd
      → (deliver category sub_category fd req (register b category sub_category s) >>= λ s'.
          rpc_request_ok b s')
        ≡ ok req
  unfolding register deliver deliver_to rpc_default_dispatcher Dispatch.add_cb rpc_request_ok
  answered_by b fd req new pos =
      let h = fresh b category sub_category in
      let connected : not (fd == 0) ≡ true = ground arith in
      rw
        (
          opaque_for-behind b category sub_category [] s.table alone,
          put_req-behind b h [] refl req s.handles new,
          connected,
          handle_at-behind b (record h { req = req }) [] refl s.handles new,
        )
        refl

-- Where no other callback has the category and neither address is that of a handle: a reply to a
-- request that was given up, and destroyed, with a body or without, is taken for the answer to the
-- next request of the same category. The descriptor is not 0.
pub late_reply :
    (s : Pending) (a b category sub_category fd : ℕ) (late : Option (List Item))
    → opaque_for category sub_category s.table ≡ none
    → handle_at a s.handles ≡ fault out_of_range
    → handle_at b s.handles ≡ fault out_of_range
    → 0 < fd
    → (rpc_request_destroy a (register a category sub_category s) >>= λ s'.
        deliver category sub_category fd late (register b category sub_category s') >>= λ s''.
        rpc_request_ok b s'')
      ≡ ok late
late_reply s a b category sub_category fd late alone new_a new_b pos =
    rw (register-destroy s category sub_category alone a new_a)
      (answered_by s category sub_category alone b fd late new_b pos)

-- Two requests of a category that wait, the first with what it was answered.
both : ℕ → ℕ → ℕ → ℕ → Option (List Item) → Pending → Pending
both a b category sub_category req s = record {
  table =
      s.table
      ++ (callback_of (fresh a category sub_category)
          ∷ callback_of (fresh b category sub_category)
          ∷ []);
  handles =
      s.handles
      ++ (record (fresh a category sub_category) { req = req }
          ∷ fresh b category sub_category
          ∷ []);
}

register-both :
    (s : Pending) (a b category sub_category : ℕ)
    → register b category sub_category (register a category sub_category s)
      ≡ both a b category sub_category none s
unfolding register Dispatch.add_cb both
register-both s a b category sub_category =
    rw
      (
        append_assoc s.table (callback_of (fresh a category sub_category) ∷ [])
            (callback_of (fresh b category sub_category) ∷ []),
        append_assoc s.handles (fresh a category sub_category ∷ [])
            (fresh b category sub_category ∷ []),
      )
      refl

module _ (s : Pending) (a b category sub_category : ℕ)
    (alone : opaque_for category sub_category s.table ≡ none)
    (new_a : handle_at a s.handles ≡ fault out_of_range) where
  -- A reply is the answer to the first.
  deliver-both :
      (fd : ℕ) (old req : Option (List Item))
      → 0 < fd
      → deliver category sub_category fd req (both a b category sub_category old s)
        ≡ ok (both a b category sub_category req s)
  unfolding deliver deliver_to rpc_default_dispatcher both
  deliver-both fd old req pos =
      let connected : not (fd == 0) ≡ true = ground arith in
      rw
        (
          opaque_for-behind a category sub_category
              (callback_of (fresh b category sub_category) ∷ []) s.table alone,
          put_req-behind a (record (fresh a category sub_category) { req = old })
              (fresh b category sub_category ∷ []) refl req s.handles new_a,
          connected,
        )
        refl

  first_ok :
      (req : Option (List Item)) → rpc_request_ok a (both a b category sub_category req s) ≡ ok req
  unfolding rpc_request_ok both
  first_ok req =
      rw
        (handle_at-behind a (record (fresh a category sub_category) { req = req })
          (fresh b category sub_category ∷ []) refl s.handles new_a)
        refl

  second_ok :
      (req : Option (List Item))
      → handle_at b s.handles ≡ fault out_of_range
      → a ≢ b
      → rpc_request_ok b (both a b category sub_category req s) ≡ ok none
  unfolding rpc_request_ok both
  second_ok req new_b different =
      let h = record (fresh a category sub_category) { req = req } in
      let last = fresh b category sub_category in
      let other : handle_at b (s.handles ++ (h ∷ [])) ≡ fault out_of_range =
        handle_at-other b h s.handles different new_b in
      rw
        (
          sym (append_assoc s.handles (h ∷ []) (last ∷ [])),
          handle_at-behind b last [] refl (s.handles ++ (h ∷ [])) other,
        )
        refl

-- Where no other callback has the category, and two requests of it are made at different addresses,
-- which are not those of handles: of the two, the replies both come to the first, the second reply
-- in place of the first, and the second request stays without an answer. The descriptor is not 0.
pub second_unanswered :
    (s : Pending) (a b category sub_category fd : ℕ) (one two : Option (List Item))
    → opaque_for category sub_category s.table ≡ none
    → handle_at a s.handles ≡ fault out_of_range
    → handle_at b s.handles ≡ fault out_of_range
    → a ≢ b
    → 0 < fd
    → (s' : Pending) × ((deliver category sub_category fd one
            (register b category sub_category (register a category sub_category s))
          >>= deliver category sub_category fd two)
        ≡ ok s')
      × (rpc_request_ok a s' ≡ ok two)
      × (rpc_request_ok b s' ≡ ok none)
second_unanswered s a b category sub_category fd one two alone new_a new_b different pos =
    let replied = deliver-both s a b category sub_category alone new_a fd in
    (
      both a b category sub_category two s,
      rw (register-both s a b category sub_category, replied none one pos) (replied one two pos),
      first_ok s a b category sub_category alone new_a two,
      second_ok s a b category sub_category alone new_a two new_b different,
    )
