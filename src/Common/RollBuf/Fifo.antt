-- ===== src/Common/RollBuf/Fifo.antt =====
-- One thread that fills and one that empties: the bytes come out in the order in which they went in.
-- With two that fill, the second can write past the end.
use livezure.Prelude.{
  ◌^◌, ℕ, ◌+◌, ◌<◌, ◌≤◌, ◌≡◌, refl, ap, ◌∙◌, sym, true, List, [], ◌++◌, length, arith, ok,
  append_assoc,
}
use mathlib.Core.Path.{subst}
use livezure.Common.RollBuf.{Pool, Got, create, has_room, put, get_round, finish, stop}
use livezure.Common.RollBuf.Bytes.{
  put-size, IsValid, contents, bytes_of, Added, Puts, put-Puts, Puts-ok, Taken, Gets,
  get_round-Gets,
}

-- Below this no sum of two sizes is past the greatest `int`.
abbrev pub max_size : ℕ
max_size = 2 ^ 30

-- The thread that fills: behind its test of a push, or not.
pub data Producer : Type 0 where
  idle : Producer
  tested : List ℕ → Producer

-- The pool, the thread that fills, and all bytes that were pushed and got.
pub record State : Type 0 where
  pub pool : Pool
  pub producer : Producer
  pub pushed : List ℕ
  pub got : List ℕ

pub data Step : State → State → Type 0 where
  tests :
      {pool : Pool} {pushed got : List ℕ} (d : List ℕ)
      → length d < max_size
      → has_room pool (length d) ≡ true
      → Step
          (record { pool = pool; producer = idle; pushed = pushed; got = got })
          (record { pool = pool; producer = tested d; pushed = pushed; got = got })
  puts :
      {pool pool' : Pool} {pushed got d : List ℕ}
      → put d pool ≡ ok pool'
      → Step
          (record { pool = pool; producer = tested d; pushed = pushed; got = got })
          (record { pool = pool'; producer = idle; pushed = pushed ++ d; got = got })
  gets :
      {pool pool' : Pool} {producer : Producer} {pushed got : List ℕ} (n : ℕ) (result : Got)
      → get_round n pool ≡ ok (result, pool')
      → Step
          (record { pool = pool; producer = producer; pushed = pushed; got = got })
          (record {
            pool = pool';
            producer = producer;
            pushed = pushed;
            got = got ++ bytes_of result;
          })
  finishes : {s : State} → Step s (record s { pool = finish s.pool })
  stops : {s : State} → Step s (record s { pool = stop s.pool })

pub data Reach (start : Pool) : State → Type 0 where
  new : Reach start (record { pool = start; producer = idle; pushed = []; got = [] })
  one_more : {s s' : State} → Reach start s → Step s s' → Reach start s'

-- What a thread that has tested relies on.
abbrev HasRoom : Pool → Producer → Type 0
HasRoom pool idle = Unit
HasRoom pool (tested d) = pool.buffer_size + length d < pool.pool_size

HasRoom-fewer :
    (producer : Producer) (pool pool' : Pool)
    → HasRoom pool producer
    → pool'.buffer_size ≤ pool.buffer_size
    → pool'.pool_size ≡ pool.pool_size
    → HasRoom pool' producer
HasRoom-fewer idle pool pool' r h e = tt
HasRoom-fewer (tested d) pool pool' r h e = omega arith

has_room_lem :
    (pool : Pool) (n : ℕ)
    → pool.buffer_size ≤ pool.pool_size
    → pool.pool_size < max_size
    → n < max_size
    → has_room pool n ≡ true
    → pool.buffer_size + n < pool.pool_size
unfolding has_room
has_room_lem pool n inside small few room = ground (arith, inside, small, few, room)

record Good (s : State) : Type 0 where
  valid : IsValid s.pool
  small : s.pool.pool_size < max_size
  room : HasRoom s.pool s.producer
  order : s.got ++ contents s.pool ≡ s.pushed

Step-Good : {s s' : State} → Good s → Step s s' → Good s'
unfolding finish stop has_room
Step-Good g (tests {pool} d few room) = record {
  valid = g.valid;
  small = g.small;
  room = has_room_lem pool (length d) g.valid.inside g.small few room;
  order = g.order;
}
Step-Good g (puts {pool} {pool'} {pushed} {got} {d} e) =
    let k : Added d pool pool' =
      subst (Puts d pool) e (put-Puts d pool g.valid (omega (arith, g.room))) in
    record {
      valid = k.valid;
      small = rw (put-size d pool pool' e) g.small;
      room = tt;
      order =
          ap (λ t. got ++ t) k.added
          ∙ sym (append_assoc got (contents pool) d)
          ∙ ap (λ t. t ++ d) g.order;
    }
Step-Good g (gets {pool} {pool'} {producer} {pushed} {got} n result e) =
    let k : Taken pool result pool' = subst (Gets pool) e (get_round-Gets n pool g.valid) in
    record {
      valid = k.valid;
      small = rw k.same_size g.small;
      room = HasRoom-fewer producer pool pool' g.room k.fewer k.same_size;
      order =
          append_assoc got (bytes_of result) (contents pool')
          ∙ ap (λ t. got ++ t) k.taken
          ∙ g.order;
    }
Step-Good g (finishes {s}) = record {
  valid = record { allocated = g.valid.allocated; inside = g.valid.inside };
  small = g.small;
  room = HasRoom-fewer s.producer s.pool (finish s.pool) g.room (omega arith) refl;
  order = g.order;
}
Step-Good g (stops {s}) = record {
  valid = record { allocated = g.valid.allocated; inside = g.valid.inside };
  small = g.small;
  room = HasRoom-fewer s.producer s.pool (stop s.pool) g.room (omega arith) refl;
  order = g.order;
}

Reach-Good :
    {start : Pool} {s : State}
    → IsValid start
    → start.buffer_size ≡ 0
    → start.pool_size < max_size
    → Reach start s
    → Good s
Reach-Good v e small new = record { valid = v; small = small; room = tt; order = rw e refl }
Reach-Good v e small (one_more r step) = Step-Good (Reach-Good v e small r) step

module _ (malloc : ℕ → List ℕ) (malloc_length : (n : ℕ) → length (malloc n) ≡ n) where
  create-IsValid : (size : ℕ) → IsValid (create malloc size)
  unfolding create
  create-IsValid size = record { allocated = malloc_length _; inside = omega arith }

  create-size : (size : ℕ) → (create malloc size).buffer_size ≡ 0
  unfolding create
  create-size size = refl

  create-small : (size : ℕ) → size < max_size → (create malloc size).pool_size < max_size
  unfolding create
  create-small size small = ground (arith, small)

  -- However one thread pushes and another gets, finishes or stops, on a pool that was created, its
  -- size and those of all pieces pushed below 2^30: the bytes that were got, with those that the pool holds, are the bytes that were pushed, in their
  -- order, and the pool never holds more than its size.
  pub Reach-contents :
      (size : ℕ) (s : State)
      → size < max_size
      → Reach (create malloc size) s
      → (s.got ++ contents s.pool ≡ s.pushed) × (s.pool.buffer_size ≤ s.pool.pool_size)
  Reach-contents size s small r =
      let g = Reach-Good (create-IsValid size) (create-size size) (create-small size small) r in
      (g.order, g.valid.inside)

  -- A push of that thread whose test has found room is copied without a fault, whatever the other
  -- thread has done since.
  pub tested_put :
      (size : ℕ) (s : State) (d : List ℕ)
      → size < max_size
      → Reach (create malloc size) s
      → s.producer ≡ tested d
      → (pool' : Pool) × (put d s.pool ≡ ok pool')
  tested_put size s d small r e =
      let g = Reach-Good (create-IsValid size) (create-size size) (create-small size small) r in
      let room : HasRoom s.pool (tested d) = subst (HasRoom s.pool) e g.room in
      Puts-ok d s.pool (put d s.pool) (put-Puts d s.pool g.valid (omega (arith, room)))
