-- ===== src/Service/Session/Fds.antt =====
-- `online_session_get_all` and the size that it allocates.
use livezure.Prelude.{ℕ, suc, ◌+◌, ◌*◌, ◌<◌, ◌≡◌, List, [], ◌∷◌, length, arith, fault, out_of_range}
use livezure.Service.Session.{Node, fill, get_all, count}

fill_short :
    (size cnt : ℕ) (n : Node) (rest : List Node)
    → size < (cnt + suc (length rest)) * 4
    → fill size cnt (n ∷ rest) ≡ fault out_of_range
unfolding fill
fill_short size cnt n [] h = ground arith
fill_short size cnt n (m ∷ rest) h = ground (arith, fill_short size (cnt + 1) m rest)

-- With any session online it writes past the end of what it allocates, which is a byte for each
-- socket and one more, where a socket takes four.
pub get_all_overruns : (n : Node) (rest : List Node) → get_all (n ∷ rest) ≡ fault out_of_range
unfolding get_all count
get_all_overruns n rest = ground (arith, fill_short (suc (length rest) + 1) 0 n rest)
