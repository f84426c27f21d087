-- ===== src/Common/RollBuf/Tests.antt =====
-- A pool of eight bytes.
use livezure.Prelude.{patch, ◌≡◌, ◌≤◌, ◌++◌, refl, [], ◌∷◌, arith, false, zeros, length-zeros}
use livezure.Common.RollBuf.{Pool, create, has_room, put}
use livezure.Common.RollBuf.Bytes.{contents}
use livezure.Common.RollBuf.Fifo.{State, idle, new, one_more, tests, puts, gets, Reach-contents}
use livezure.Common.RollBuf.{whole, get_round, get_whole}

abbrev eight : Pool
eight = record {
  buffer_pool = zeros 8;
  buffer_size = 0;
  pool_size = 8;
  finish_singal = false;
  stop_signal = false;
}

abbrev three : Pool
three = record eight { buffer_pool = 1 ∷ 2 ∷ 3 ∷ zeros 5; buffer_size = 3 }

abbrev one_left : Pool
one_left = record eight { buffer_pool = 3 ∷ 2 ∷ 3 ∷ zeros 5; buffer_size = 1 }

abbrev after : State
after = record { pool = one_left; producer = idle; pushed = 1 ∷ 2 ∷ 3 ∷ []; got = 1 ∷ 2 ∷ [] }

Reach-contents_example :
    (after.got ++ contents one_left ≡ after.pushed) × (one_left.buffer_size ≤ one_left.pool_size)
unfolding create has_room put get_round get_whole patch
Reach-contents_example = Reach-contents zeros length-zeros 8 after (omega arith) (
    one_more
      (one_more (one_more new (tests (1 ∷ 2 ∷ 3 ∷ []) (omega arith) refl))
        (puts {pool' = three} refl))
      (gets 2 (whole (1 ∷ 2 ∷ [])) refl))
