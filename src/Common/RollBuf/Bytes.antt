-- ===== src/Common/RollBuf/Bytes.antt =====
-- What a copy of a push and a round of a get do with the bytes of a pool: neither faults, and the
-- pool stays valid.
use livezure.Prelude.{
  ℕ, ◌+◌, ◌-◌, ◌≤◌, ◌≡◌, refl, ap, ◌∙◌, sym, ltb, if◌then◌else◌, true, false, Bool-cases, inl, inr,
  List, [], ◌++◌, length, take, drop, arith, Run, ok, fault, ◌>>=◌, load, store, load_lem,
  store_lem, take-patch, length-patch, length-take, length-drop, take-take-drop, append-nil,
}
use livezure.Common.RollBuf.{
  Pool, Got, stopped, finished, whole, waits, put, get_short, get_whole, get_round,
}

pub record IsValid (pool : Pool) : Type 0 where
  pub allocated : length pool.buffer_pool ≡ pool.pool_size
  pub inside : pool.buffer_size ≤ pool.pool_size

abbrev pub contents : Pool → List ℕ
contents pool = take pool.buffer_size pool.buffer_pool

abbrev pub bytes_of : Got → List ℕ
bytes_of stopped = []
bytes_of (finished result) = result
bytes_of (whole result) = result
bytes_of waits = []

-- A pool after bytes are added.
pub record Added (d : List ℕ) (pool after : Pool) : Type 0 where
  pub valid : IsValid after
  pub added : contents after ≡ contents pool ++ d

abbrev pub Puts : List ℕ → Pool → Run Pool → Type 0
Puts d pool (fault why) = ⊥
Puts d pool (ok after) = Added d pool after

pub put-Puts :
    (d : List ℕ) (pool : Pool)
    → IsValid pool
    → pool.buffer_size + length d ≤ pool.pool_size
    → Puts d pool (put d pool)
unfolding put
put-Puts d pool v room =
    rw (store_lem pool.buffer_pool pool.buffer_size d (omega (arith, v.allocated))) (record {
      valid = record {
        allocated = length-patch pool.buffer_pool pool.buffer_size d ∙ v.allocated;
        inside = room;
      };
      added =
          take-patch pool.buffer_pool pool.buffer_size d (pool.buffer_size + length d)
            (omega (arith, v.allocated)) refl;
    })

pub Puts-ok :
    (d : List ℕ) (pool : Pool) (out : Run Pool)
    → Puts d pool out
    → (after : Pool) × (out ≡ ok after)
Puts-ok d pool (fault why) k = absurd k
Puts-ok d pool (ok after) k = (after, refl)

pub put-size :
    (d : List ℕ) (pool after : Pool) → put d pool ≡ ok after → after.pool_size ≡ pool.pool_size
unfolding put
put-size d pool after e = ground (arith, e)

-- A pool after bytes are taken from its front.
pub record Taken (pool : Pool) (got : Got) (after : Pool) : Type 0 where
  pub valid : IsValid after
  pub taken : bytes_of got ++ contents after ≡ contents pool
  pub fewer : after.buffer_size ≤ pool.buffer_size
  pub same_size : after.pool_size ≡ pool.pool_size

abbrev pub Gets : Pool → Run (Got × Pool) → Type 0
Gets pool (fault why) = ⊥
Gets pool (ok (got, after)) = Taken pool got after

unchanged : (got : Got) (pool : Pool) → IsValid pool → bytes_of got ≡ [] → Taken pool got pool
unchanged got pool v e = record {
  valid = v;
  taken = rw e refl;
  fewer = omega arith;
  same_size = refl;
}

get_short-Gets : (pool : Pool) → IsValid pool → Gets pool (get_short pool)
unfolding get_short
get_short-Gets pool v =
    let all : Run (Got × Pool) = (do
      result ← load pool.buffer_pool 0 pool.buffer_size
      ok (finished result, record pool { buffer_size = 0 })) in
    let emptied : Gets pool all =
      rw (load_lem pool.buffer_pool 0 pool.buffer_size (omega (arith, v.allocated, v.inside)))
        (record {
          valid = record { allocated = v.allocated; inside = omega arith };
          taken = append-nil (contents pool);
          fewer = omega arith;
          same_size = refl;
        }) in
    elim pool.stop_signal
      as (λ s. Gets pool (
        if s then ok (stopped, pool) else (if pool.finish_singal then all else ok (waits, pool)))) [
          | true ↦ unchanged stopped pool v refl
          | false ↦
              elim pool.finish_singal as (λ s. Gets pool (if s then all else ok (waits, pool))) [
                | true ↦ emptied
                | false ↦ unchanged waits pool v refl
              ]
        ]

get_whole-Gets :
    (n : ℕ) (pool : Pool) → IsValid pool → n ≤ pool.buffer_size → Gets pool (get_whole n pool)
unfolding get_whole
get_whole-Gets n pool v h =
    let left = pool.buffer_size - n in
    let rest = take left (drop n pool.buffer_pool) in
    let size : length rest ≡ left = omega (
      arith,
      length-take left (drop n pool.buffer_pool),
      length-drop n pool.buffer_pool,
      v.allocated,
      v.inside,
    ) in
    let whole_size : n + left ≡ pool.buffer_size = omega arith in
    let bytes : Run (Got × Pool) = (do
      result ← load pool.buffer_pool 0 n
      rest ← load pool.buffer_pool n left
      buffer_pool ← store pool.buffer_pool 0 rest
      ok (whole result, record pool { buffer_pool = buffer_pool; buffer_size = left })) in
    let moved : Gets pool bytes =
      rw
        (
          load_lem pool.buffer_pool 0 n (omega (arith, v.allocated, v.inside)),
          load_lem pool.buffer_pool n left (omega (arith, v.allocated, v.inside)),
          store_lem pool.buffer_pool 0 rest (omega (arith, v.allocated, v.inside)),
        )
        (record {
          valid = record {
            allocated = length-patch pool.buffer_pool 0 rest ∙ v.allocated;
            inside = omega (arith, v.inside);
          };
          taken =
              ap (λ t. take n pool.buffer_pool ++ t)
                (take-patch pool.buffer_pool 0 rest left (omega (arith, v.allocated, v.inside))
                  (omega arith))
              ∙ sym (take-take-drop n left pool.buffer_pool)
              ∙ ap (λ k. take k pool.buffer_pool) whole_size;
          fewer = omega arith;
          same_size = refl;
        }) in
    elim pool.stop_signal as (λ s. Gets pool (if s then ok (stopped, pool) else bytes)) [
      | true ↦ unchanged stopped pool v refl
      | false ↦ moved
    ]

pub get_round-Gets : (n : ℕ) (pool : Pool) → IsValid pool → Gets pool (get_round n pool)
unfolding get_round
get_round-Gets n pool v =
    elim (Bool-cases (ltb pool.buffer_size n))
      as (λ t. Gets pool (if ltb pool.buffer_size n then get_short pool else get_whole n pool)) [
        | inl short ↦ rw short (get_short-Gets pool v)
        | inr enough ↦ rw enough (get_whole-Gets n pool v (ground arith))
      ]
