-- ===== src/Rpc/Parser.antt =====
-- rpc_parser.c: a request as the list of its keys and values.
pub mod Build
pub mod Lookup
pub mod Pack
pub mod RoundTrip
pub mod Stream
mod Tests
use livezure.Prelude.{
  leb, out_of_range, ℕ, zero, suc, if◌then◌else◌, List, [], ◌∷◌, ◌++◌, length, drop, get_elem?,
  Option, none, some, Run, ok, fault, ◌>>=◌, load, strlen, int_ltb, starts_with, failed_assert,
  out_of_fuel,
}
use livezure.Rpc.Buffer.{Buffer, rewind}
use livezure.Rpc.Keypair
use livezure.Rpc.Keypair.{Found}

-- `struct rpc_req` of an entry; both texts stand with the 0 that is put behind them.
pub record Item : Type 0 where
  pub key : List ℕ
  pub keysize : ℕ
  pub value : Option (List ℕ)
  pub valuesize : ℕ

copy_value : List ℕ → ℕ → Run (Option (List ℕ) × ℕ)
copy_value value zero = ok (none, 0)
copy_value value (suc n) = do text ← load value 0 (suc n); ok (some (text ++ (0 ∷ [])), suc n)

-- `key` and `value` are the memories behind the pointers; `list_add_tail` puts the item last.
pub add : List Item → List ℕ → List ℕ → ℕ → Run (List Item)
add req key value valuesize = do
  keysize ← strlen key
  size ← (if int_ltb valuesize 0 then strlen value else ok valuesize)
  text ← load key 0 keysize
  (copy, copysize) ← copy_value value size
  ok (
      req
      ++ (record { key = text ++ (0 ∷ []); keysize = keysize; value = copy; valuesize = copysize }
          ∷ []))

-- The loop over the entries, with fuel: a stream can keep it going for ever.
pub parse : ℕ → Buffer → List Item → Run (List Item)
parse zero buffer req = fault out_of_fuel
parse (suc f) buffer req = do
  (found, buffer') ← Keypair.next buffer
  elim found [
    | none ↦ ok req
    | some e ↦ (do
      req' ← add req (drop e.key buffer'.chunk) (drop e.body buffer'.chunk) e.bodysize
      parse f buffer' req')
  ]

pub new : ℕ → Option Buffer → Run (List Item)
new fuel none = fault failed_assert
new fuel (some buffer) = parse fuel (rewind buffer) []

unfoldable pub count : List Item → ℕ
count req = length req

pub index : List Item → ℕ → Option Item
index req i = get_elem? req i

-- The loop of `rpc_parser_get`. `memcmp` may read all bytes that it is given to compare, also behind
-- their first difference, and the key of an item has no more than stand in its text and the 0.
unfoldable pub find_in_bounds : List Item → List ℕ → Run (Option (Option (List ℕ) × ℕ))
find_in_bounds [] key = ok none
find_in_bounds (item ∷ req) key =
    let rest = find_in_bounds req key in
    if leb (length key) (length item.key)
    then (if starts_with item.key key then ok (some (item.value, item.valuesize)) else rest)
    else fault out_of_range

-- The value and its size in the first item whose key begins with the text; a request with no body
-- has no items.
unfoldable pub get_in_bounds : Option (List Item) → List ℕ → Run (Option (Option (List ℕ) × ℕ))
get_in_bounds none key = ok none
get_in_bounds (some req) key = find_in_bounds req key

-- The same with a `memcmp` that reads nothing behind the first difference, on which the handlers and
-- the client rely.
unfoldable pub find : List Item → List ℕ → Option (Option (List ℕ) × ℕ)
find [] key = none
find (item ∷ req) key =
    if starts_with item.key key then some (item.value, item.valuesize) else find req key

unfoldable pub get : Option (List Item) → List ℕ → Option (Option (List ℕ) × ℕ)
get none key = none
get (some req) key = find req key
