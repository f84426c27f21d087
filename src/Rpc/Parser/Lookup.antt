-- ===== src/Rpc/Parser/Lookup.antt =====
-- `rpc_parser_get` on what `rpc_parser_new` makes of a stream: it compares by the beginning.
use livezure.Prelude.{
  ◌+◌, Bool, ◌||◌, leb, fault, out_of_range, Bool-cases, inl, inr, ℕ, suc, ◌^◌, ◌<◌, ◌≡◌, refl, ap,
  ◌∙◌, true, ◌&&◌, ◌==◌, if◌then◌else◌, List, [], ◌∷◌, ◌++◌, length, arith, Option, none, some, ok,
  append_assoc, starts_with, length-append,
}
use livezure.Rpc.Buffer
use livezure.Rpc.Buffer.{Buffer, given, rewind}
use livezure.Rpc.Buffer.New.{new-Copies}
use livezure.Rpc.Keypair.{divide}
use livezure.Rpc.Parser.{Item, new, find, get, find_in_bounds, get_in_bounds}
use livezure.Rpc.Parser.Stream.{
  Pair, IsClean, AllClean, body, stream, has_nul, until_nul, value_of, item_of,
}
use livezure.Rpc.Parser.RoundTrip.{items, parse-stream}

-- The value of the first pair whose key begins with the text, and its size.
abbrev pub first_match : List ℕ → List Pair → Option (Option (List ℕ) × ℕ)
first_match text [] = none
first_match text (p ∷ ps) =
    if starts_with p.key text then some (value_of p.value, length p.value) else first_match text ps

starts_with-until_nul :
    (mem text : List ℕ)
    → IsClean text
    → starts_with (until_nul mem ++ (0 ∷ [])) text ≡ starts_with mem text
unfolding starts_with until_nul
starts_with-until_nul [] [] c = refl
starts_with-until_nul [] (y ∷ ys) c = ground arith
starts_with-until_nul (x ∷ xs) [] c = ground arith
starts_with-until_nul (x ∷ xs) (y ∷ ys) c = ground (arith, starts_with-until_nul xs ys c.2)

starts_with-key :
    (key behind text : List ℕ)
    → IsClean text
    → starts_with (key ++ (b':' ∷ behind)) text ≡ starts_with key text
unfolding starts_with
starts_with-key [] behind [] c = refl
starts_with-key [] behind (y ∷ ys) c = ground arith
starts_with-key (x ∷ xs) behind [] c = refl
starts_with-key (x ∷ xs) behind (y ∷ ys) c =
    ap (λ t. x == y && t) (starts_with-key xs behind ys c.2)

starts_with-item :
    (p : Pair) (behind text : List ℕ)
    → IsClean text
    → starts_with (item_of p behind).key text ≡ starts_with p.key text
unfolding item_of body
starts_with-item p behind text c =
    starts_with-until_nul ((p.key ++ (divide ++ p.value)) ++ behind) text c
    ∙ ap (λ t. starts_with t text) (append_assoc p.key (divide ++ p.value) behind)
    ∙ starts_with-key p.key (b' ' ∷ (p.value ++ behind)) text c

item_fields :
    (p : Pair) (behind : List ℕ)
    → ((item_of p behind).value ≡ value_of p.value)
      × ((item_of p behind).valuesize ≡ length p.value)
unfolding item_of
item_fields p behind = (refl, refl)

pub find-items :
    (ps : List Pair) (rest text : List ℕ)
    → IsClean text
    → find (items ps rest) text ≡ first_match text ps
unfolding find
find-items [] rest text c = refl
find-items (p ∷ ps) rest text c = ground (
  arith,
  starts_with-item p (stream ps ++ rest) text c,
  find-items ps rest text c,
  item_fields p (stream ps ++ rest),
)

-- Whether a text is no longer than the key of each item that it is compared with: what stands in the
-- stream from the key on, up to a 0, and that.
abbrev pub in_bounds : List ℕ → List Pair → Bool
in_bounds text [] = true
in_bounds text (p ∷ ps) =
    leb (length text) (length (until_nul (body p ++ stream ps)) + 1)
    && (starts_with p.key text || in_bounds text ps)

until_nul-end : (mem behind : List ℕ) → until_nul (mem ++ (0 ∷ behind)) ≡ until_nul mem
unfolding until_nul
until_nul-end [] behind = refl
until_nul-end (x ∷ mem) behind = elim (Bool-cases (x == 0)) [
  | inl e ↦ rw e refl
  | inr e ↦ rw (e, until_nul-end mem behind) refl
]

key_length :
    (p : Pair) (ps : List Pair) (behind : List ℕ)
    → length (item_of p (stream ps ++ (0 ∷ behind))).key
      ≡ length (until_nul (body p ++ stream ps)) + 1
unfolding item_of
key_length p ps behind =
    rw
      (
        ← append_assoc (body p) (stream ps) (0 ∷ behind),
        until_nul-end (body p ++ stream ps) behind,
        length-append (until_nul (body p ++ stream ps)) (0 ∷ []),
      )
      refl

find_in_bounds-items :
    (ps : List Pair) (behind text : List ℕ)
    → IsClean text
    → find_in_bounds (items ps (0 ∷ behind)) text
      ≡ (if in_bounds text ps then ok (first_match text ps) else fault out_of_range)
unfolding find_in_bounds
find_in_bounds-items [] behind text c = refl
find_in_bounds-items (p ∷ ps) behind text c = ground (
  arith,
  starts_with-item p (stream ps ++ (0 ∷ behind)) text c,
  find_in_bounds-items ps behind text c,
  item_fields p (stream ps ++ (0 ∷ behind)),
  key_length p ps behind,
)

pub new-items :
    (ps : List Pair) (rest : List ℕ) (f : ℕ) (b : Buffer)
    → AllClean ps
    → b.chunk ≡ stream ps ++ rest
    → b.chunk_used ≡ length (stream ps)
    → b.chunk_used < 2 ^ 30
    → has_nul rest ≡ true
    → length ps < f
    → new f (some b) ≡ ok (items ps rest)
unfolding new rewind
new-items ps rest f b c holds used small h enough =
    parse-stream ps rest f (rewind b) [] c holds (omega arith)
      (omega (arith, ap length holds, length-append (stream ps) rest)) small h enough

module _ (malloc : ℕ → List ℕ) (malloc_length : (n : ℕ) → length (malloc n) ≡ n) where
  -- A stream of pairs, the keys clean, that is received and parsed, with fuel for one round more
  -- than there are pairs, gives a request in which a clean text finds the first pair whose key
  -- begins with it, where the text is no longer than the key, up to a 0 and that, of each item that
  -- it is compared with; it is compared outside the key of an item where it is longer. With a
  -- comparison that stops at the first difference it always finds that pair.
  pub get-received :
      (ps : List Pair) (n f : ℕ) (text : List ℕ)
      → AllClean ps
      → length (stream ps) ≡ suc n
      → suc n < 2 ^ 30
      → length ps < f
      → IsClean text
      → (b : Buffer) × (req : List Item) × (Buffer.new malloc (stream ps) (given (suc n)) ≡ ok b)
        × (new f (some b) ≡ ok req)
        × (get_in_bounds (some req) text
            ≡ (if in_bounds text ps then ok (first_match text ps) else fault out_of_range))
        × (get (some req) text ≡ first_match text ps)
  get-received ps n f text c e small enough clean =
      let q = new-Copies malloc malloc_length (stream ps) n e in
      (
        q.after,
        items ps (0 ∷ q.behind),
        q.returns,
        new-items ps (0 ∷ q.behind) f q.after c q.holds q.used (omega (arith, q.used)) refl enough,
        unfold get_in_bounds in find_in_bounds-items ps q.behind text clean,
        unfold get in find-items ps (0 ∷ q.behind) text clean,
      )
