-- ===== src/Rpc/Parser/RoundTrip.antt =====
-- A stream of pairs, received and parsed, and the values looked up in it.
use livezure.Prelude.{
  ℕ, suc, zero, ◌+◌, ◌^◌, ◌≤◌, ◌<◌, ◌≡◌, ap, ◌∙◌, sym, true, List, [], ◌∷◌, ◌++◌, length, drop,
  arith, none, ok, length-append, append_assoc, append-nil, drop-drop, int_bytes,
}
use livezure.Rpc.Buffer.{Buffer}
use livezure.Rpc.Buffer.Next.{remaining, next_end}
use livezure.Rpc.Keypair
use livezure.Rpc.Keypair.{split_entry, divide}
use livezure.Rpc.Parser.{Item, parse}
use livezure.Rpc.Parser.Stream.{
  Pair, IsClean, AllClean, body, size, length-body, stream, has_nul, has_nul-append, item_of,
  add_lem, keypair_next, behind_size, at_value, after_body, value-le-size,
}

-- The items of a stream, with `rest` behind it in memory.
abbrev pub items : List Pair → List ℕ → List Item
items [] rest = []
items (p ∷ ps) rest = item_of p (stream ps ++ rest) ∷ items ps rest

keypair_end :
    (b : Buffer)
    → b.chunk_used ≤ b.parse_position
    → b.parse_position < 2 ^ 30
    → Keypair.next b ≡ ok (none, b)
unfolding Keypair.next split_entry
keypair_end b h small = rw (next_end b h small)

value_place :
    (b : Buffer) (p : Pair) (behind : List ℕ)
    → remaining b ≡ int_bytes (size p) ++ (body p ++ behind)
    → drop (b.parse_position + 4 + length p.key + 2) b.chunk ≡ p.value ++ behind
value_place b p behind at =
    let e : b.parse_position + 4 + length p.key + 2 ≡ b.parse_position + 4 + (length p.key + 2) =
      omega arith in
    ap (λ k. drop k b.chunk) e
    ∙ sym (drop-drop (length p.key + 2) (b.parse_position + 4) b.chunk)
    ∙ ap (drop (length p.key + 2)) (behind_size b (size p) (body p ++ behind) at)
    ∙ at_value p behind

-- One round of the loop.
parse_pair :
    (f : ℕ) (b : Buffer) (req : List Item) (p : Pair) (behind : List ℕ)
    → IsClean p.key
    → remaining b ≡ int_bytes (size p) ++ (body p ++ behind)
    → b.chunk_used ≤ length b.chunk
    → b.chunk_used < 2 ^ 30
    → b.parse_position + 4 + size p ≤ b.chunk_used
    → has_nul behind ≡ true
    → parse (suc f) b req
      ≡ parse f
          (record b { parse_position = b.parse_position + 4 + size p })
          (req ++ (item_of p behind ∷ []))
unfolding parse
parse_pair f b req p behind c at in_chunk small fits h = rw (
  keypair_next b p behind c at in_chunk (omega arith) fits,
  behind_size b (size p) (body p ++ behind) at,
  value_place b p behind at,
  add_lem req p behind h (omega (arith, value-le-size p)),
)

regroup :
    (p : Pair) (ps : List Pair) (rest : List ℕ)
    → stream (p ∷ ps) ++ rest ≡ int_bytes (size p) ++ (body p ++ (stream ps ++ rest))
regroup p ps rest =
    append_assoc (int_bytes (size p)) (body p ++ stream ps) rest
    ∙ ap (λ t. int_bytes (size p) ++ t) (append_assoc (body p) (stream ps) rest)

length-pair :
    (p : Pair) (ps : List Pair) → length (stream (p ∷ ps)) ≡ 4 + size p + length (stream ps)
length-pair p ps = omega (
  arith,
  length-append (int_bytes (size p)) (body p ++ stream ps),
  length-append (body p) (stream ps),
  length-body p,
)

pub parse-stream :
    (ps : List Pair) (rest : List ℕ) (f : ℕ) (b : Buffer) (req : List Item)
    → AllClean ps
    → remaining b ≡ stream ps ++ rest
    → b.parse_position + length (stream ps) ≡ b.chunk_used
    → b.chunk_used ≤ length b.chunk
    → b.chunk_used < 2 ^ 30
    → has_nul rest ≡ true
    → length ps < f
    → parse f b req ≡ ok (req ++ items ps rest)
parse-stream [] rest zero b req c at e in_chunk small h enough = absurd (omega arith)
parse-stream [] rest (suc f) b req c at e in_chunk small h enough =
    unfold parse in rw (keypair_end b (omega arith) (omega arith), append-nil req)
parse-stream (p ∷ ps) rest zero b req c at e in_chunk small h enough = absurd (omega arith)
parse-stream (p ∷ ps) rest (suc f) b req c at e in_chunk small h enough =
    let behind = stream ps ++ rest in
    let at' = at ∙ regroup p ps rest in
    let sizes = length-pair p ps in
    parse_pair f b req p behind c.0 at' in_chunk small (omega arith)
      (has_nul-append (stream ps) rest h)
    ∙ parse-stream ps rest f (record b { parse_position = b.parse_position + 4 + size p })
        (req ++ (item_of p behind ∷ [])) c.1
        (sym (drop-drop (size p) (b.parse_position + 4) b.chunk)
          ∙ ap (drop (size p)) (behind_size b (size p) (body p ++ behind) at')
          ∙ after_body p behind)
        (omega arith) in_chunk small h (omega arith)
    ∙ ap ok (append_assoc req (item_of p behind ∷ []) (items ps rest))
