-- ===== src/Rpc/Parser/Tests.antt =====
-- Runs of the buffers, the key pairs and the parser, and their theorems at concrete streams.
use livezure.Prelude.{
  ◌≡◌, refl, List, [], ◌∷◌, ◌++◌, arith, inr, fault, out_of_range, some, ok, zeros, length-zeros,
  none, bytes, starts_with, strlen, strstr, int_bytes,
}
use livezure.Rpc.Buffer
use livezure.Rpc.Buffer.{Buffer, Size, given, negative, size_or_strlen, rewind}
use livezure.Rpc.Buffer.Append.{payload, Holds, append-Holds}
use livezure.Rpc.Keypair
use livezure.Rpc.Keypair.{Found, divide, split_entry, found_at}
use livezure.Rpc.Parser
use livezure.Rpc.Parser.{Item, parse, find}
use livezure.Rpc.Parser.Stream.{Pair, body, size, stream, until_nul}
use livezure.Rpc.Parser.Pack.{pack, all_fit, pack_lem}
use livezure.Rpc.Parser.Lookup.{get-received}

-- `id` with the value `7`, and `idx` with the value `42`
abbrev id_pair : Pair
id_pair = record { key = b'i' ∷ b'd' ∷ []; value = b'7' ∷ [] }

abbrev idx_pair : Pair
idx_pair = record { key = b'i' ∷ b'd' ∷ b'x' ∷ []; value = b'4' ∷ b'2' ∷ [] }

abbrev pairs : List Pair
pairs = idx_pair ∷ id_pair ∷ []

-- The text `id` finds the value of `idx`, which comes first.
get-received_example :
    (b : Buffer) × (req : List Item) × (Buffer.new zeros (stream pairs) (given 20) ≡ ok b)
    × (Parser.new 3 (some b) ≡ ok req)
    × (Parser.get_in_bounds (some req) (b'i' ∷ b'd' ∷ [])
        ≡ ok (some (some (b'4' ∷ b'2' ∷ 0 ∷ []), 2)))
    × (Parser.get (some req) (b'i' ∷ b'd' ∷ []) ≡ some (some (b'4' ∷ b'2' ∷ 0 ∷ []), 2))
unfolding starts_with size body until_nul
get-received_example =
    get-received zeros length-zeros pairs 19 3 (b'i' ∷ b'd' ∷ []) (ground arith) (omega arith)
      (omega arith) (omega arith) (ground arith)

abbrev one_used : Buffer
one_used = record { chunk = zeros 80; chunk_size = 80; chunk_used = 5; parse_position = 0 }

append-Holds_example :
    Holds one_used
      (payload one_used ++ (int_bytes 2 ++ (8 ∷ 9 ∷ [])))
      (Buffer.append zeros (some one_used) (8 ∷ 9 ∷ []) (given 2))
unfolding size_or_strlen
append-Holds_example =
    append-Holds zeros length-zeros (8 ∷ 9 ∷ []) (given 2) 2 (omega arith) refl (inr (omega arith))
      (omega arith)

-- An entry of 58 bytes.
abbrev long_pair : Pair
long_pair = record {
  key = bytes "k";
  value = bytes "0123456789012345678901234567890123456789012345678901234";
}

pack_lem_example : pack zeros none (id_pair ∷ long_pair ∷ []) ≡ fault out_of_range
unfolding bytes size all_fit
pack_lem_example = pack_lem zeros length-zeros id_pair (long_pair ∷ []) (omega arith)

-- `rpc_parser_new` on the stream of the two pairs, with a 0 behind it.
parses :
    Parser.new 3 (some (record one_used { chunk = stream pairs ++ (0 ∷ []); chunk_used = 20 }))
    ≡ ok (
        record {
          key = b'i' ∷ b'd' ∷ b'x' ∷ b':' ∷ b' ' ∷ b'4' ∷ b'2' ∷ 5 ∷ 0 ∷ [];
          keysize = 8;
          value = some (b'4' ∷ b'2' ∷ 0 ∷ []);
          valuesize = 2;
        }
        ∷ record {
          key = b'i' ∷ b'd' ∷ b':' ∷ b' ' ∷ b'7' ∷ 0 ∷ [];
          keysize = 5;
          value = some (b'7' ∷ 0 ∷ []);
          valuesize = 1;
        }
        ∷ [])
unfolding Parser.new parse Keypair.next split_entry found_at Buffer.next strstr strlen starts_with
    rewind size body Parser.add Parser.copy_value
parses = refl
