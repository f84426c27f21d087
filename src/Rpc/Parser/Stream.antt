-- ===== src/Rpc/Parser/Stream.antt =====
-- The stream of a list of pairs, and what `rpc_keypair_next` and `rpc_parser_add` make of a pair.
use livezure.Prelude.{
  ℕ, ◌+◌, ◌^◌, ◌≤◌, ◌<◌, ◌≡◌, ◌≢◌, refl, ap, ◌∙◌, sym, Bool, true, false, ◌||◌, ◌==◌, if◌then◌else◌,
  List, [], ◌∷◌, ◌++◌, length, drop, take, arith, Option, none, some, ok, length-append,
  append_assoc, drop-append, drop-drop, take-append, int_bytes, strlen, strstr, starts_with,
}
use livezure.Rpc.Buffer.{Buffer}
use livezure.Rpc.Buffer.Next.{remaining, next_entry}
use livezure.Rpc.Keypair
use livezure.Rpc.Keypair.{Found, divide, split_entry, found_at}
use livezure.Rpc.Parser.{Item, copy_value, add}

pub record Pair : Type 0 where
  pub key : List ℕ
  pub value : List ℕ

-- A key has no 0 and no colon.
abbrev pub IsClean : List ℕ → Type 0
IsClean [] = Unit
IsClean (x ∷ xs) = (x ≢ 0) × (x ≢ b':') × IsClean xs

abbrev pub AllClean : List Pair → Type 0
AllClean [] = Unit
AllClean (p ∷ ps) = IsClean p.key × AllClean ps

unfoldable pub body : Pair → List ℕ
body p = p.key ++ (divide ++ p.value)

unfoldable pub size : Pair → ℕ
size p = length p.key + 2 + length p.value

pub length-body : (p : Pair) → length (body p) ≡ size p
unfolding body size
length-body p = omega (arith, length-append p.key (divide ++ p.value), length-append divide p.value)

pub value-le-size : (p : Pair) → length p.value ≤ size p
unfolding size
value-le-size p = omega arith

abbrev pub stream : List Pair → List ℕ
stream [] = []
stream (p ∷ ps) = int_bytes (size p) ++ (body p ++ stream ps)

strstr_key :
    (key value : List ℕ)
    → IsClean key
    → strstr (key ++ (divide ++ value)) divide ≡ ok (some (length key))
unfolding strstr starts_with
strstr_key [] value c = refl
strstr_key (x ∷ xs) value c = ground (arith, strstr_key xs value c.2)

-- The text at the start of a memory, and whether it ends there.
abbrev pub has_nul : List ℕ → Bool
has_nul [] = false
has_nul (x ∷ xs) = (x == 0) || has_nul xs

unfoldable pub until_nul : List ℕ → List ℕ
until_nul [] = []
until_nul (x ∷ xs) = if x == 0 then [] else x ∷ until_nul xs

pub has_nul-append : (xs ys : List ℕ) → has_nul ys ≡ true → has_nul (xs ++ ys) ≡ true
has_nul-append [] ys h = h
has_nul-append (x ∷ xs) ys h = ground (arith, has_nul-append xs ys h)

strlen-until_nul :
    (mem : List ℕ)
    → has_nul mem ≡ true
    → (strlen mem ≡ ok (length (until_nul mem)))
      × (take (length (until_nul mem)) mem ≡ until_nul mem)
      × (length (until_nul mem) ≤ length mem)
unfolding strlen until_nul
strlen-until_nul [] h = cc
strlen-until_nul (x ∷ xs) h = ground (arith, strlen-until_nul xs)

-- What the parser makes of a pair, before which memory it stands deciding where its key ends.
abbrev pub value_of : List ℕ → Option (List ℕ)
value_of [] = none
value_of (x ∷ xs) = some ((x ∷ xs) ++ (0 ∷ []))

unfoldable pub item_of : Pair → List ℕ → Item
item_of p behind =
    let text = until_nul (body p ++ behind) in
    record {
      key = text ++ (0 ∷ []);
      keysize = length text;
      value = value_of p.value;
      valuesize = length p.value;
    }

copy_value_lem :
    (value behind : List ℕ)
    → copy_value (value ++ behind) (length value) ≡ ok (value_of value, length value)
unfolding copy_value
copy_value_lem [] behind = refl
copy_value_lem (x ∷ xs) behind =
    ground (arith, length-append xs behind, take-append xs behind (length xs))

pub add_lem :
    (req : List Item) (p : Pair) (behind : List ℕ)
    → has_nul behind ≡ true
    → length p.value < 2 ^ 31
    → add req (body p ++ behind) (p.value ++ behind) (length p.value)
      ≡ ok (req ++ (item_of p behind ∷ []))
unfolding add item_of
add_lem req p behind h small = ground (
  arith,
  strlen-until_nul (body p ++ behind) (has_nul-append (body p) behind h),
  copy_value_lem p.value behind,
)

pub behind_size :
    (b : Buffer) (n : ℕ) (behind : List ℕ)
    → remaining b ≡ int_bytes n ++ behind
    → drop (b.parse_position + 4) b.chunk ≡ behind
behind_size b n behind at = sym (drop-drop 4 b.parse_position b.chunk) ∙ ap (drop 4) at

-- Where the value of a pair stands, and what stands behind the pair.
pub at_value :
    (p : Pair) (behind : List ℕ) → drop (length p.key + 2) (body p ++ behind) ≡ p.value ++ behind
unfolding body
at_value p behind =
    rw
      (
        append_assoc p.key (divide ++ p.value) behind,
        ← append_assoc p.key divide (p.value ++ behind),
      )
      (drop-append (p.key ++ divide) (p.value ++ behind) (length p.key + 2)
        (omega (arith, length-append p.key divide)))

pub after_body : (p : Pair) (behind : List ℕ) → drop (size p) (body p ++ behind) ≡ behind
after_body p behind = drop-append (body p) behind (size p) (sym (length-body p))

strstr_body :
    (p : Pair) (behind : List ℕ)
    → IsClean p.key
    → strstr (body p ++ behind) divide ≡ ok (some (length p.key))
unfolding body
strstr_body p behind c =
    rw (append_assoc p.key (divide ++ p.value) behind) (strstr_key p.key (p.value ++ behind) c)

pub keypair_next :
    (b : Buffer) (p : Pair) (behind : List ℕ)
    → IsClean p.key
    → remaining b ≡ int_bytes (size p) ++ (body p ++ behind)
    → b.chunk_used ≤ length b.chunk
    → b.chunk_used < 2 ^ 31
    → b.parse_position + 4 + size p ≤ b.chunk_used
    → Keypair.next b
      ≡ ok (
        some (record {
          key = b.parse_position + 4;
          body = b.parse_position + 4 + length p.key + 2;
          bodysize = length p.value;
        }),
        record b { parse_position = b.parse_position + 4 + size p },
      )
unfolding Keypair.next split_entry found_at size
keypair_next b p behind c at in_chunk small fits =
    rw
      (
        next_entry b (size p) (body p ++ behind) at in_chunk small (omega arith) fits,
        behind_size b (size p) (body p ++ behind) at,
        strstr_body p behind c,
      )
      (ground arith)
