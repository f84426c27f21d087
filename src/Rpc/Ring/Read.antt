-- ===== src/Rpc/Ring/Read.antt =====
-- `rpc_rb_read` takes the oldest bytes, as long as it does not have to put two pieces together.
use livezure.Prelude.{
  ℕ, ◌+◌, ◌-◌, ◌≤◌, ◌<◌, ◌≡◌, ltb, leb, List, length, take, drop, arith, ok, length-take,
  length-drop, take-take, drop-take, drop-drop, Bool-cases, ◌⊎◌, inl, inr, take-append_before,
  drop-append_before, patch, take-patch, length-patch, Run, ◌∙◌,
}
use livezure.Rpc.Ring.{Ring, can_read, reserve, read_linear, read_copied, read}
use livezure.Rpc.Ring.Inv.{IsValid, contents}

-- What a read of `count` bytes is to do: it returns the oldest bytes and leaves the others.
pub record Reads (r : Ring) (count : ℕ) (out : Run (List ℕ × Ring)) : Type 0 where
  pub after : Ring
  pub returns : out ≡ ok (take count (contents r), after)
  pub valid : IsValid after
  pub rest : contents after ≡ drop count (contents r)
  pub same_capacity : after.capacity ≡ r.capacity
  pub same_expand : after.expand ≡ r.expand

-- A ring that holds the same bytes serves.
Reads-same :
    {r s : Ring} {count : ℕ} {out : Run (List ℕ × Ring)}
    → contents s ≡ contents r
    → s.capacity ≡ r.capacity
    → s.expand ≡ r.expand
    → Reads s count out
    → Reads r count out
Reads-same {count} same cap exp q = record {
  after = q.after;
  returns = rw (← same) q.returns;
  valid = q.valid;
  rest = rw (← same) q.rest;
  same_capacity = q.same_capacity ∙ cap;
  same_expand = q.same_expand ∙ exp;
}

read_linear-Reads :
    {r : Ring} (count : ℕ)
    → IsValid r
    → count ≤ can_read r
    → r.head < r.tail
    → Reads r count (read_linear r count)
unfolding read_linear can_read
read_linear-Reads {r} count v h lt = record {
  after = record r { head = r.head + count };
  returns = ground (arith, take-take count (r.tail - r.head) (drop r.head r.buffer));
  valid = ground arith;
  rest = ground (
    arith,
    drop-take count (r.tail - r.head) (drop r.head r.buffer),
    drop-drop count r.head r.buffer,
  );
  same_capacity = ground arith;
  same_expand = ground arith;
}

-- Where the bytes end at the end of the buffer or before it, they are in one piece.
oldest_lem :
    {r : Ring} (count : ℕ)
    → IsValid r
    → count ≤ can_read r
    → r.tail ≤ r.head
    → count < r.capacity - r.head
    → take count (contents r) ≡ take count (drop r.head r.buffer)
unfolding can_read
oldest_lem {r} count v h le fits = elim (Bool-cases (leb r.head r.tail)) [
  | inl e ↦ (let z : count ≡ 0 = ground arith in rw z)
  | inr e ↦ rw e (
      take-append_before count (drop r.head r.buffer) (take r.tail r.buffer)
        (omega (arith, length-drop r.head r.buffer)))
]

read_copied-Reads :
    {r : Ring} (count : ℕ)
    → IsValid r
    → count ≤ can_read r
    → r.tail ≤ r.head
    → count < r.capacity - r.head
    → count ≤ length r.ret_buffer
    → Reads r count (read_copied r count)
unfolding read_copied can_read
read_copied-Reads {r} count v h le fits room = record {
  after = record r { head = r.head + count; ret_buffer = patch r.ret_buffer 0 bytes };
  returns = ground (
    arith,
    oldest_lem count v h le fits,
    length-take count (drop r.head r.buffer),
    length-drop r.head r.buffer,
    length-patch r.ret_buffer 0 bytes,
    take-patch r.ret_buffer 0 bytes count,
  );
  valid = ground (arith, length-patch r.ret_buffer 0 bytes);
  rest = ground (
    arith,
    drop-append_before count (drop r.head r.buffer) (take r.tail r.buffer),
    drop-drop count r.head r.buffer,
    length-drop r.head r.buffer,
  );
  same_capacity = ground arith;
  same_expand = ground arith;
}
  where
    bytes : List ℕ
    bytes = take count (drop r.head r.buffer)

module _ (malloc : ℕ → List ℕ) (malloc_length : (n : ℕ) → length (malloc n) ≡ n) where
  reserve_lem :
      {r : Ring} (count : ℕ)
      → IsValid r
      → IsValid (reserve malloc r count)
        × (count ≤ length (reserve malloc r count).ret_buffer)
        × (contents (reserve malloc r count) ≡ contents r)
        × (can_read (reserve malloc r count) ≡ can_read r)
        × ((reserve malloc r count).head ≡ r.head)
        × ((reserve malloc r count).tail ≡ r.tail)
        × ((reserve malloc r count).capacity ≡ r.capacity)
        × ((reserve malloc r count).expand ≡ r.expand)
  unfolding reserve can_read
  reserve_lem {r} count v = ground (arith, malloc_length count)

  -- A read of bytes that are there, and that lie in one piece below the end of the buffer, returns
  -- the oldest bytes, leaves the others in order, and keeps the invariant.
  pub read-Reads :
      {r : Ring} (count : ℕ)
      → IsValid r
      → count ≤ can_read r
      → (r.head ≤ r.tail) ⊎ (count < r.capacity - r.head)
      → Reads r count (read malloc r count)
  unfolding read can_read
  read-Reads {r} count v h piece = elim (Bool-cases (ltb r.head r.tail)) [
    | inl e ↦ rw e (read_linear-Reads count v h (ground arith))
    | inr e ↦
        (let s = reserve_lem count v in
          rw e (
            Reads-same s.2 s.6 s.7
              (read_copied-Reads count s.0 (ground arith) (ground arith) (ground arith) s.1)))
  ]
