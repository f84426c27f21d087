-- ===== src/Rpc/Ring/Write.antt =====
-- `rpc_rb_write` puts bytes behind those that the ring holds, and makes room for them first.
use livezure.Prelude.{
  ℕ, suc, ◌+◌, ◌-◌, ◌≤◌, ◌<◌, ◌≡◌, refl, ap, ◌∙◌, List, ◌++◌, length, take, drop, arith, ok, fault,
  ◌>>=◌, wild_store, length-take, length-drop, ◌⊎◌, append_assoc, take-append-drop,
}
use native.Mathlib.Decide.{dec_lt}
use livezure.Rpc.Ring.{Ring, can_read, can_write, grow, place, write_fuel, write}
use livezure.Rpc.Ring.Inv.{IsValid, contents}
use livezure.Rpc.Ring.Place.{
  Writes, filled, filled_lem, place_wrapped, place_end, place_full, place_split,
}
use livezure.Rpc.Ring.Grow.{grow_none, grow_wild, grow-Grows}

module _ (malloc : ℕ → List ℕ) (malloc_length : (n : ℕ) → length (malloc n) ≡ n) where
  write_fuel-suc :
      (f : ℕ) (r : Ring) (bytes : List ℕ)
      → write_fuel malloc (suc f) r bytes
        ≡ (grow malloc r (length bytes) >>= λ r'. place (write_fuel malloc f) r' bytes)
  unfolding write_fuel
  write_fuel-suc f r bytes = refl

  -- The call for the second part finds the ring wrapped, and room for it.
  second_part :
      {r : Ring} (f : ℕ) (bytes : List ℕ)
      → IsValid r
      → r.tail < r.head
      → length bytes < can_write r
      → Writes r bytes (write_fuel malloc (suc f) r bytes)
  second_part {r} f bytes v lt room =
      rw (write_fuel-suc, grow_none malloc malloc_length r (length bytes) room)
        (place_wrapped bytes v room (write_fuel malloc f) lt)

  room_wrapped :
      (r : Ring) → r.tail < r.head → can_write r ≡ r.capacity - (r.capacity - (r.head - r.tail))
  unfolding can_write can_read
  room_wrapped r h = ground arith

  room_flat : (r : Ring) → r.head ≤ r.tail → can_write r ≡ r.capacity - (r.tail - r.head)
  unfolding can_write can_read
  room_flat r h = ground arith

  place_round :
      {r : Ring} (f : ℕ) (bytes : List ℕ)
      → IsValid r
      → length bytes < can_write r
      → r.head ≤ r.tail
      → r.capacity < r.tail + length bytes
      → Writes r bytes (place (write_fuel malloc (suc f)) r bytes)
  place_round {r} f bytes v room le over =
      let size = r.capacity - r.tail in
      let first = take size bytes in
      let rest = drop size bytes in
      let n1 : length first ≡ size = omega (arith, length-take size bytes) in
      let n2 : length rest ≡ length bytes - size = length-drop size bytes in
      let s = filled r first in
      let fl = filled_lem first v (omega arith) le (omega arith) in
      let free = room_wrapped s fl.1 in
      let w = second_part {r = s} f rest fl.0 fl.1 (omega (arith, room_flat r le)) in
      record {
        after = w.after;
        returns =
            rw (place_split bytes v room (write_fuel malloc (suc f)) le over, w.returns)
              (ap (λ k. ok (k, w.after)) (omega arith));
        valid = w.valid;
        appended =
            w.appended
            ∙ ap (λ t. t ++ rest) fl.2
            ∙ append_assoc (contents r) first rest
            ∙ ap (λ t. contents r ++ t) (take-append-drop size bytes);
      }

  place-Writes :
      {r : Ring} (f : ℕ) (bytes : List ℕ)
      → IsValid r
      → length bytes < can_write r
      → Writes r bytes (place (write_fuel malloc (suc f)) r bytes)
  place-Writes {r} f bytes v room = elim (dec_lt r.tail r.head) [
    | yes lt ↦ place_wrapped bytes v room (write_fuel malloc (suc f)) lt
    | no le ↦ elim (dec_lt (r.tail + length bytes) r.capacity) [
      | yes lt ↦ place_end bytes v room (write_fuel malloc (suc f)) (omega arith) lt
      | no ge ↦ elim (dec_lt r.capacity (r.tail + length bytes)) [
        | yes over ↦ place_round f bytes v room (omega arith) over
        | no under ↦ place_full bytes v room (write_fuel malloc (suc f)) (omega arith) (omega arith)
      ]
    ]
  ]

  write_fuel-Writes :
      {r : Ring} (f : ℕ) (bytes : List ℕ)
      → IsValid r
      → (r.head ≤ r.tail) ⊎ (length bytes < can_write r)
      → Writes r bytes (write_fuel malloc (suc (suc f)) r bytes)
  write_fuel-Writes {r} f bytes v may =
      let g = grow-Grows malloc malloc_length (length bytes) v may in
      let w = place-Writes f bytes g.valid g.room in
      record {
        after = w.after;
        returns = rw (write_fuel-suc, g.returns) w.returns;
        valid = w.valid;
        appended = w.appended ∙ ap (λ t. t ++ bytes) g.same;
      }

  -- A write to a valid ring returns, whatever the number of bytes, if the bytes held do not go
  -- round the end of the buffer or the ring need not grow. It returns the number of bytes, puts
  -- them behind those held, and keeps the invariant.
  pub write-Writes :
      {r : Ring} (bytes : List ℕ)
      → IsValid r
      → (r.head ≤ r.tail) ⊎ (length bytes < can_write r)
      → Writes r bytes (write malloc r bytes)
  unfolding write
  write-Writes bytes v may = write_fuel-Writes 0 bytes v may

  -- To grow while the bytes held go round the end of the buffer, the function reads them in two
  -- pieces: it always stores through the pointer past `ret_buffer`, whatever is written.
  pub write_wild :
      {r : Ring} (bytes : List ℕ)
      → IsValid r
      → r.tail < r.head
      → can_write r ≤ length bytes
      → write malloc r bytes ≡ fault wild_store
  unfolding write
  write_wild {r} bytes v lt full =
      rw (write_fuel-suc, grow_wild malloc malloc_length (length bytes) v lt full)
