-- ===== src/Rpc/Ring/Place.antt =====
-- Where `rpc_rb_write` puts the bytes, once there is room for them.
use livezure.Prelude.{
  ℕ, ◌+◌, ◌-◌, ◌≤◌, ◌<◌, ◌≡◌, List, ◌++◌, length, take, drop, arith, ok, length-take, length-drop,
  append-nil, append_assoc, patch, take-patch, drop-patch, drop-patch_past, length-patch, Run,
  take-all, ◌>>=◌,
}
use livezure.Rpc.Ring.{Ring, can_read, can_write, place}
use livezure.Rpc.Ring.Inv.{IsValid, contents}

-- What a write of these bytes is to do: it puts them behind those that the ring holds.
pub record Writes (r : Ring) (bytes : List ℕ) (out : Run (ℕ × Ring)) : Type 0 where
  pub after : Ring
  pub returns : out ≡ ok (length bytes, after)
  pub valid : IsValid after
  pub appended : contents after ≡ contents r ++ bytes

-- Writing from the tail to the end of the buffer and going round.
abbrev pub filled : Ring → List ℕ → Ring
filled r bytes = record r { buffer = patch r.buffer r.tail bytes; tail = 0 }

module _ {r : Ring} (bytes : List ℕ) (v : IsValid r) (room : length bytes < can_write r) where
  pub filled_lem :
      r.head ≤ r.tail
      → r.tail + length bytes ≡ r.capacity
      → IsValid (filled r bytes) × (0 < r.head) × (contents (filled r bytes) ≡ contents r ++ bytes)
  unfolding can_write can_read
  filled_lem le e = (
    ground (arith, length-patch r.buffer r.tail bytes),
    ground arith,
    ground (
      arith,
      drop-patch r.buffer r.tail bytes r.head,
      take-patch (drop r.head r.buffer) (r.tail - r.head) bytes (r.capacity - r.head),
      take-all (r.capacity - r.head) (patch (drop r.head r.buffer) (r.tail - r.head) bytes),
      length-patch (drop r.head r.buffer) (r.tail - r.head) bytes,
      length-drop r.head r.buffer,
      append-nil (patch (drop r.head r.buffer) (r.tail - r.head) bytes),
    ),
  )

  pub place_wrapped :
      (again : Ring → List ℕ → Run (ℕ × Ring))
      → r.tail < r.head
      → Writes r bytes (place again r bytes)
  unfolding can_write can_read place
  place_wrapped again lt = record {
    after = record r { buffer = patch r.buffer r.tail bytes; tail = r.tail + length bytes };
    returns = ground arith;
    valid = ground (arith, length-patch r.buffer r.tail bytes);
    appended = ground (
      arith,
      drop-patch_past r.buffer r.tail bytes r.head,
      take-patch r.buffer r.tail bytes (r.tail + length bytes),
      append_assoc (drop r.head r.buffer) (take r.tail r.buffer) bytes,
    );
  }

  pub place_end :
      (again : Ring → List ℕ → Run (ℕ × Ring))
      → r.head ≤ r.tail
      → r.tail + length bytes < r.capacity
      → Writes r bytes (place again r bytes)
  unfolding can_write can_read place
  place_end again le lt = record {
    after = record r { buffer = patch r.buffer r.tail bytes; tail = r.tail + length bytes };
    returns = ground arith;
    valid = ground (arith, length-patch r.buffer r.tail bytes);
    appended = ground (
      arith,
      drop-patch r.buffer r.tail bytes r.head,
      take-patch (drop r.head r.buffer) (r.tail - r.head) bytes (r.tail + length bytes - r.head),
      length-drop r.head r.buffer,
    );
  }

  pub place_full :
      (again : Ring → List ℕ → Run (ℕ × Ring))
      → r.head ≤ r.tail
      → r.tail + length bytes ≡ r.capacity
      → Writes r bytes (place again r bytes)
  unfolding place
  place_full again le e = record {
    after = filled r bytes;
    returns = ground arith;
    valid = (filled_lem le e).0;
    appended = (filled_lem le e).2;
  }

  -- The first part of a write that goes round, and the call that writes the second.
  pub place_split :
      (again : Ring → List ℕ → Run (ℕ × Ring))
      → r.head ≤ r.tail
      → r.capacity < r.tail + length bytes
      → place again r bytes ≡ (
          again (filled r (take (r.capacity - r.tail) bytes)) (drop (r.capacity - r.tail) bytes)
          >>= λ out. ok (r.capacity - r.tail + out.0, out.1))
  unfolding place
  place_split again le over = ground (arith, length-take (r.capacity - r.tail) bytes)
