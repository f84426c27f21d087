-- ===== src/Service/Session/Tick.antt =====
-- `online_session_check_all_hearbeat`: which sessions a tick of the heartbeat timer removes.
use livezure.Prelude.{
  ℕ, zero, suc, ◌≤◌, ◌<◌, ◌≡◌, refl, ◌∙◌, true, false, List, [], ◌∷◌, length, arith, Bool-cases,
  inl, inr, ◌⊎◌,
}
use livezure.Service.Session.{
  Node, Outcome, done, waits, ahead, remove, need_delete, clear_heartbeat, check_all,
}
use livezure.Service.Session.Unique.{AllFree, SameUser, Kept, keep, gone, Kept-refl}

abbrev pub AllExpired : List Node → Type 0
AllExpired [] = Unit
AllExpired (n ∷ rest) = (need_delete n ≡ true) × AllExpired rest

-- What a tick does to a table with no reference held: it removes one session, or else it leaves
-- every session expired if it does not show up again.
pub record Ticks (t : List Node) : Type 0 where
  pub after : List Node
  pub returns : check_all false t ≡ done after
  pub free : AllFree after
  pub users : Kept t after
  pub progress : (suc (length after) ≡ length t) ⊎ ((length after ≡ length t) × AllExpired after)

cleared-SameUser : (n : Node) → SameUser n (clear_heartbeat n)
unfolding clear_heartbeat
cleared-SameUser n = record { heartbeat = false; session = refl; address = refl }

check_nil : check_all false [] ≡ done []
unfolding check_all
check_nil = refl

pub check_delete :
    (n : Node) (rest : List Node)
    → need_delete n ≡ true
    → n.refcount ≡ 0
    → check_all false (n ∷ rest) ≡ done rest
unfolding check_all remove
check_delete n rest e f = ground arith

pub check_pass :
    (n : Node) (rest : List Node)
    → need_delete n ≡ false
    → check_all false (n ∷ rest) ≡ ahead (clear_heartbeat n) (check_all false rest)
unfolding check_all
check_pass n rest e = rw e

pub clear_lem :
    (n : Node)
    → (need_delete (clear_heartbeat n) ≡ true)
      × ((clear_heartbeat n).refcount ≡ n.refcount)
      × ((clear_heartbeat n).address ≡ n.address)
      × ((clear_heartbeat n).b_mark_deleted ≡ n.b_mark_deleted)
      × ((clear_heartbeat n).session.fd ≡ n.session.fd)
unfolding clear_heartbeat need_delete
clear_lem n = ground arith

passed :
    (n : Node) (rest : List Node)
    → need_delete n ≡ false
    → n.refcount ≡ 0
    → Ticks rest
    → Ticks (n ∷ rest)
unfolding ahead
passed n rest e f q = record {
  after = clear_heartbeat n ∷ q.after;
  returns = rw (check_pass n rest e, q.returns);
  free = ((clear_lem n).1 ∙ f, q.free);
  users = keep (cleared-SameUser n) q.users;
  progress = shift q.progress;
}
  where
    shift :
        (suc (length q.after) ≡ length rest) ⊎ ((length q.after ≡ length rest) × AllExpired q.after)
        → (suc (suc (length q.after)) ≡ suc (length rest))
          ⊎ ((suc (length q.after) ≡ suc (length rest))
              × ((need_delete (clear_heartbeat n) ≡ true) × AllExpired q.after))
    shift (inl less) = inl (omega arith)
    shift (inr (same, x)) = inr (omega arith, ((clear_lem n).0, x))

pub check_all-Ticks : (t : List Node) → AllFree t → Ticks t
check_all-Ticks [] f = record {
  after = [];
  returns = unfold check_all in refl;
  free = tt;
  users = Kept-refl [];
  progress = inr (refl, tt);
}
check_all-Ticks (n ∷ rest) f = elim (Bool-cases (need_delete n)) [
  | inl e ↦ record {
    after = rest;
    returns = check_delete n rest e f.0;
    free = f.1;
    users = gone (Kept-refl rest);
    progress = inl refl;
  }
  | inr e ↦ passed n rest e f.0 (check_all-Ticks rest f.1)
]

-- `k` ticks of the timer, with no heartbeat between them.
pub ticks : ℕ → List Node → Outcome
ticks zero t = done t
ticks (suc k) t = elim (check_all false t) [ done t' ↦ ticks k t' | waits n t' ↦ waits n t' ]

-- A table of expired sessions loses its first at every tick.
ticks-expired :
    (k : ℕ) (t : List Node) → AllFree t → AllExpired t → length t ≤ k → ticks k t ≡ done []
unfolding ticks
ticks-expired zero [] f x h = refl
ticks-expired zero (n ∷ rest) f x h = absurd (omega arith)
ticks-expired (suc k) [] f x h = rw (check_nil, ticks) (ticks-expired k [] tt tt (omega arith))
ticks-expired (suc k) (n ∷ rest) f x h =
    rw (check_delete n rest x.0 f.0, ticks) (ticks-expired k rest f.1 x.1 (omega arith))

ticks_step :
    (k : ℕ) (t : List Node) (q : Ticks t)
    → (suc (length q.after) ≡ length t → ticks k q.after ≡ done [])
    → length t < suc k
    → ticks (suc k) t ≡ done []
unfolding ticks
ticks_step k t q again h = rw (q.returns, ticks) (by_progress q.progress)
  where
    by_progress :
        (suc (length q.after) ≡ length t) ⊎ ((length q.after ≡ length t) × AllExpired q.after)
        → ticks k q.after ≡ done []
    by_progress (inl less) = again less
    by_progress (inr (same, x)) = ticks-expired k q.after q.free x (omega arith)

-- Sessions that send no heartbeat, with no reference to them held, are all removed within one tick
-- more than there are sessions.
pub ticks-done : (k : ℕ) (t : List Node) → AllFree t → length t < k → ticks k t ≡ done []
ticks-done zero t f h = absurd (omega arith)
ticks-done (suc k) t f h =
    let q = check_all-Ticks t f in
    ticks_step k t q (λ less. ticks-done k q.after q.free (omega arith)) h
