-- ===== src/Rpc/Ring/Tests.antt =====
-- Runs of the ring, and its theorems at concrete rings.
use livezure.Prelude.{◌≡◌, refl, inl, [], ◌∷◌, arith, ok, patch, zeros, length-zeros}
use livezure.Rpc.Ring.{Ring, can_read, can_write, read_linear, read, grow, place, write_fuel, write}
use livezure.Rpc.Ring.Read.{Reads, read-Reads}
use livezure.Rpc.Ring.Place.{Writes}
use livezure.Rpc.Ring.Write.{write-Writes}

-- 2 and 3 stand in the middle of four bytes.
abbrev flat : Ring
flat = record {
  buffer = 1 ∷ 2 ∷ 3 ∷ 4 ∷ [];
  head = 1;
  tail = 3;
  capacity = 4;
  expand = 2;
  ret_buffer = [];
  ret_buffer_size = 0;
}

-- 4 and 1 stand at the end and at the start.
abbrev wrapped : Ring
wrapped = record flat { head = 3; tail = 1 }

read_two : read zeros flat 2 ≡ ok (2 ∷ 3 ∷ [], record flat { head = 3 })
unfolding read read_linear can_read
read_two = refl

-- 5 alone stands before the end of six bytes; two more go round it.
abbrev near_end : Ring
near_end = record flat { buffer = 0 ∷ 1 ∷ 2 ∷ 3 ∷ 5 ∷ 6 ∷ []; head = 4; tail = 5; capacity = 6 }

goes_round :
    write zeros near_end (8 ∷ 9 ∷ [])
    ≡ ok (2, record near_end { buffer = 9 ∷ 1 ∷ 2 ∷ 3 ∷ 5 ∷ 8 ∷ []; tail = 1 })
unfolding write write_fuel grow place can_write can_read patch
goes_round = refl

grows :
    write zeros flat (8 ∷ 9 ∷ [])
    ≡ ok (2, record flat { buffer = 2 ∷ 3 ∷ 8 ∷ 9 ∷ 0 ∷ 0 ∷ []; head = 0; tail = 4; capacity = 6 })
unfolding write write_fuel grow place can_write can_read read read_linear patch
grows = refl

read-Reads_example : Reads flat 1 (read zeros flat 1)
read-Reads_example =
    read-Reads zeros length-zeros 1 (omega arith) (unfold can_read in omega arith)
      (inl (omega arith))

write-Writes_example : Writes flat (7 ∷ 8 ∷ 9 ∷ []) (write zeros flat (7 ∷ 8 ∷ 9 ∷ []))
write-Writes_example =
    write-Writes zeros length-zeros (7 ∷ 8 ∷ 9 ∷ []) (omega arith) (inl (omega arith))
