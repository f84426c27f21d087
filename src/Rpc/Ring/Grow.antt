-- ===== src/Rpc/Ring/Grow.antt =====
-- `rpc_rb_write` makes room: a larger buffer, with the bytes that the ring holds at its start.
use livezure.Prelude.{
  ℕ, ◌+◌, ◌-◌, ◌≤◌, ◌<◌, ◌≡◌, refl, leb, List, length, drop, arith, ok, fault, Run, wild_store,
  length-take, length-drop, Bool-cases, inl, inr, ◌⊎◌, patch, take-patch, length-patch, take-all,
}
use livezure.Rpc.Ring.{Ring, can_read, can_write, reserve, read_copied, read, grow}
use livezure.Rpc.Ring.Inv.{IsValid, contents, length-contents}
use livezure.Rpc.Ring.Read.{Reads, read-Reads}

module _ (malloc : ℕ → List ℕ) (malloc_length : (n : ℕ) → length (malloc n) ≡ n) where
  -- A write that leaves the buffer as it is.
  pub grow_none : (r : Ring) (count : ℕ) → count < can_write r → grow malloc r count ≡ ok r
  unfolding grow
  grow_none r count h = ground arith

  read_wild :
      {r : Ring} → IsValid r → r.tail < r.head → read malloc r (can_read r) ≡ fault wild_store
  unfolding read reserve read_copied can_read
  read_wild {r} v lt = ground (
    arith,
    malloc_length (can_read r),
    length-drop r.head r.buffer,
    length-take (r.capacity - r.head) (drop r.head r.buffer),
  )

  pub grow_wild :
      {r : Ring} (count : ℕ)
      → IsValid r
      → r.tail < r.head
      → can_write r ≤ count
      → grow malloc r count ≡ fault wild_store
  unfolding grow
  grow_wild {r} count v lt full = ground (arith, read_wild v lt)

  -- The ring after it has grown: the same bytes, room for more, and the head at the start.
  pub record Grows (r : Ring) (count : ℕ) (out : Run Ring) : Type 0 where
    pub after : Ring
    pub returns : out ≡ ok after
    pub valid : IsValid after
    pub same : contents after ≡ contents r
    pub room : count < can_write after

  moved : Ring → List ℕ → ℕ → Ring
  moved r bytes size = record r {
    buffer = patch (malloc size) 0 bytes;
    head = 0;
    tail = length bytes;
    capacity = size;
  }

  moved_lem :
      {r : Ring} (bytes : List ℕ) (size count : ℕ)
      → IsValid r
      → length bytes + count < size
      → IsValid (moved r bytes size)
        × (contents (moved r bytes size) ≡ bytes)
        × (count < can_write (moved r bytes size))
  unfolding moved can_write can_read
  moved_lem {r} bytes size count v h = ground (
    arith,
    malloc_length size,
    length-patch (malloc size) 0 bytes,
    take-patch (malloc size) 0 bytes (length bytes),
  )

  grow_full :
      {r : Ring} (count : ℕ)
      → IsValid r
      → can_write r ≤ count
      → Reads r (can_read r) (read malloc r (can_read r))
      → Grows r count (grow malloc r count)
  unfolding grow
  grow_full {r} count v full q =
      let n = length-contents v in
      let whole = take-all (can_read r) (contents r) (omega arith) in
      let size = can_read r + count + r.expand in
      let m = moved_lem {r = q.after} (contents r) size count q.valid (ground arith) in
      record {
        after = moved q.after (contents r) size;
        returns =
            unfold moved in ground (arith, whole, q.returns, n, q.same_expand, malloc_length size);
        valid = m.0;
        same = m.1;
        room = m.2;
      }

  pub grow-Grows :
      {r : Ring} (count : ℕ)
      → IsValid r
      → (r.head ≤ r.tail) ⊎ (count < can_write r)
      → Grows r count (grow malloc r count)
  grow-Grows {r} count v may = elim (Bool-cases (leb (can_write r) count)) [
    | inl e ↦
        grow_full count v (ground arith)
          (read-Reads malloc malloc_length (can_read r) v (omega arith) (ground arith))
    | inr e ↦ record {
      after = r;
      returns = grow_none r count (ground arith);
      valid = v;
      same = refl;
      room = ground arith;
    }
  ]
