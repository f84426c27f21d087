-- ===== src/Rpc/Dispatch/First.antt =====
-- Which dispatcher gets a request.
use livezure.Prelude.{
  ℕ, ◌≡◌, refl, ◌==◌, if◌then◌else◌, Bool, true, false, ◌&&◌, ◌||◌, Bool-cases, inl, inr, List, [],
  ◌∷◌, none, ok, arith,
}
use livezure.Rpc.Dispatch.{Dispatcher, handles, add_cb, del_cb, Answer, processor}

-- Whether there is a dispatcher for the category.
abbrev pub has_handler : ℕ → ℕ → List Dispatcher → Bool
has_handler category sub_category [] = false
has_handler category sub_category (d ∷ rest) =
    handles category sub_category d || has_handler category sub_category rest

-- Whether this very dispatcher is there.
abbrev pub has_exactly : Dispatcher → List Dispatcher → Bool
has_exactly d [] = false
has_exactly d (e ∷ rest) =
    handles d.category d.sub_category e && e.cb == d.cb && e.opaque == d.opaque
    || has_exactly d rest

same : (n : ℕ) → (n == n) ≡ true
same n = ground arith

ors : (a b : Bool) → (a || b) ≡ false → b ≡ false
ors true b h = cc
ors false b h = h

-- The first dispatcher of a category gets its requests. One that is added gets those of its
-- category only if there was none, and no other request.
pub processor-add_cb {ℓ κ} :
    {Req : Type ℓ} {Response : Type κ} (call : ℕ → ℕ → ℕ → Req → Answer Response)
    (category sub_category fd : ℕ) (req : Req) (d : Dispatcher) (table : List Dispatcher)
    → processor call category sub_category fd req
        (add_cb d.category d.sub_category d.cb d.opaque table)
      ≡ (if has_handler category sub_category table
          then processor call category sub_category fd req table
          else (if handles category sub_category d
              then call d.cb d.opaque fd req
              else record { response = none; b_req_reclaim = true }))
unfolding processor add_cb handles
processor-add_cb call category sub_category fd req d [] = refl
processor-add_cb call category sub_category fd req d (e ∷ table) =
    elim (Bool-cases (handles category sub_category e)) [
      | inl h ↦ rw h refl
      | inr h ↦ rw (h, processor-add_cb call category sub_category fd req d table) refl
    ]

-- Deleting what was added, if it was not there before, leaves the list as it was.
pub del_cb-add_cb :
    (d : Dispatcher) (table : List Dispatcher)
    → has_exactly d table ≡ false
    → del_cb d.category d.sub_category d.cb d.opaque
        (add_cb d.category d.sub_category d.cb d.opaque table)
      ≡ ok table
unfolding del_cb add_cb handles
del_cb-add_cb d [] h = rw (same d.category, same d.sub_category, same d.cb, same d.opaque) refl
del_cb-add_cb d (e ∷ table) h =
    elim (Bool-cases
      (handles d.category d.sub_category e && e.cb == d.cb && e.opaque == d.opaque)) [
        | inl this ↦ absurd (ground arith)
        | inr this ↦
            let deeper : has_exactly d table ≡ false =
              ors (handles d.category d.sub_category e && e.cb == d.cb && e.opaque == d.opaque)
                (has_exactly d table) h in
            rw (this, del_cb-add_cb d table deeper) refl
      ]
