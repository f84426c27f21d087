-- ===== src/Client/Nulls.antt =====
-- The lists of accounts and of devices as the client gets them: it compares the keys with `strcmp`,
-- and a key that was parsed goes on behind its divide, up to the next 0.
use livezure.Prelude.{
  ℕ, suc, ◌-◌, ◌^◌, ◌<◌, ◌≡◌, refl, ap, ◌∙◌, false, List, [], ◌∷◌, ◌++◌, length, arith, Option,
  none, some, ok, append_assoc, Text, bytes, text_eq, atoi, decimal, atoi-decimal, length-decimal,
  starts_with, read_digits, positive,
}
use livezure.Rpc.Parser
use livezure.Rpc.Parser.{Item}
use livezure.Rpc.Keypair.{divide}
use livezure.Rpc.Parser.Stream.{Pair, IsClean, body, stream, until_nul, item_of}
use livezure.Rpc.Parser.RoundTrip.{items}
use livezure.Rpc.Parser.Pack.{AllTexts}
use livezure.Service.Handlers.{Reply, rid}
use livezure.Service.Handlers.Args.{arg-items, first_text, unless_empty-some}
use livezure.Service.Handlers.Lists.{listing}
use livezure.Client.{mc_ok, Session, Link, check_rid, check_number, finish, is_fault, request}
use livezure.Client.Lists.{
  Setter, set_field, read_item, read_items, nulls, room, read_entries, read_listed, read_list,
  zeroed_account, account_uuid, account_fields, zeroed_device, device_fields, mc_account_list,
  mc_device_list,
}

text_ne_lem :
    (key behind name : Text)
    → IsClean key
    → IsClean name
    → text_eq (until_nul (until_nul (key ++ (b':' ∷ behind)) ++ (0 ∷ []))) name ≡ false
unfolding until_nul text_eq
text_ne_lem [] behind [] c d = refl
text_ne_lem [] behind (y ∷ ys) c d = ground arith
text_ne_lem (x ∷ xs) behind [] c d = ground arith
text_ne_lem (x ∷ xs) behind (y ∷ ys) c d = ground (arith, text_ne_lem xs behind ys c.2 d.2)

-- No clean text is the key of an item.
key_ne_lem :
    (p : Pair) (behind name : Text)
    → IsClean p.key
    → IsClean name
    → text_eq (until_nul (item_of p behind).key) name ≡ false
unfolding item_of body
key_ne_lem p behind name c d =
    ap (λ t. text_eq (until_nul (until_nul t ++ (0 ∷ []))) name)
      (append_assoc p.key (divide ++ p.value) behind)
    ∙ text_ne_lem p.key (b' ' ∷ (p.value ++ behind)) name c d

rid-IsClean : IsClean (bytes "rid")
unfolding bytes
rid-IsClean = omega arith

count-IsClean : IsClean (bytes "count")
unfolding bytes
count-IsClean = omega arith

uuid-IsClean : IsClean (bytes "uuid")
unfolding bytes
uuid-IsClean = omega arith

atoi_zero : atoi (bytes "0") ≡ ok 0
unfolding bytes atoi read_digits positive
atoi_zero = refl

abbrev pub CleanNames : {X : Type 0} → List (Text × Setter X) → Type 0
CleanNames [] = Unit
CleanNames ((name, set) ∷ fields) = IsClean name × CleanNames fields

module _ {X : Type 0} (zeroed : X) (uuid : Setter X) (all : List (Text × Setter X)) where
  set_field-none :
      (fields : List (Text × Setter X)) (p : Pair) (behind : Text) (value : Option Text)
      (entries : List X)
      → IsClean p.key
      → CleanNames fields
      → set_field zeroed uuid all fields (until_nul (item_of p behind).key) value entries
        ≡ ok entries
  unfolding set_field
  set_field-none [] p behind value entries c names = refl
  set_field-none ((name, set) ∷ fields) p behind value entries c names =
      rw (key_ne_lem p behind name c names.0)
        (set_field-none fields p behind value entries c names.1)

  read_item-none :
      (count : ℕ) (p : Pair) (behind : Text) (entries : List X)
      → IsClean p.key
      → CleanNames all
      → read_item zeroed uuid all count (item_of p behind) entries ≡ ok entries
  unfolding read_item
  read_item-none count p behind entries c names =
      rw
        (
          key_ne_lem p behind (bytes "rid") c rid-IsClean,
          key_ne_lem p behind (bytes "count") c count-IsClean,
          key_ne_lem p behind (bytes "uuid") c uuid-IsClean,
        )
        (set_field-none all p behind _ entries c names)

  read_items-none :
      (count : ℕ) (ps : List Pair) (rest : Text) (entries : List X)
      → AllTexts ps
      → CleanNames all
      → read_items zeroed uuid all count (items ps rest) entries ≡ ok entries
  unfolding read_items
  read_items-none count [] rest entries t names = refl
  read_items-none count (p ∷ ps) rest entries t names =
      rw (read_item-none count p (stream ps ++ rest) entries t.0 names)
        (read_items-none count ps rest entries t.2 names)

length-items : (ps : List Pair) (rest : Text) → length (items ps rest) ≡ length ps
length-items [] rest = refl
length-items (p ∷ ps) rest = ap suc (length-items ps rest)

check_rid-text :
    (ps : List Pair) (rest text value : Text) (n : ℕ)
    → AllTexts ps
    → IsClean text
    → first_text text ps ≡ some value
    → atoi value ≡ ok n
    → check_rid (items ps rest) text ≡ ok n
unfolding check_rid check_number
check_rid-text ps rest text value n t c first number =
    ap check_number (arg-items ps rest text t c ∙ first) ∙ number

module _ {X : Type 0} (zeroed : X) (uuid : Setter X) (fields : List (Text × Setter X))
    (names : CleanNames fields) (ps : List Pair) (rest : Text) (t : AllTexts ps) where
  read_entries-nulls :
      (n : ℕ)
      → n < 2 ^ 31
      → 2 < length ps
      → read_entries zeroed uuid fields n (items ps rest) ≡ ok (nulls n)
  unfolding read_entries room Parser.count
  read_entries-nulls n small many =
      let left : room n - 0 ≡ n = ground arith in
      rw (read_items-none zeroed uuid fields (room n) ps rest [] t names)
        (ground (arith, length-items ps rest, ap (nulls {X = X}) left))

  read_list-nulls :
      (n : ℕ)
      → 0 < n
      → n < 2 ^ 31
      → 2 < length ps
      → first_text (bytes "rid") ps ≡ some (bytes "0")
      → first_text (bytes "count") ps ≡ some (decimal n)
      → read_list zeroed uuid fields (some (items ps rest)) ≡ ok (mc_ok, some (nulls n))
  unfolding read_list read_listed
  read_list-nulls n pos small many r c =
      rw (check_rid-text ps rest (bytes "rid") (bytes "0") 0 t rid-IsClean r atoi_zero) (
        rw
          (check_rid-text ps rest (bytes "count") (decimal n) n t count-IsClean c
            (atoi-decimal n (omega arith)))
          (ground (arith, read_entries-nulls n small many)))

account_names : CleanNames account_fields
unfolding bytes
account_names = omega arith

device_names : CleanNames device_fields
unfolding bytes
device_names = omega arith

module _ {S : Type 0} (link : Link S) (session : Session) (entries : List Reply) (rest : Text)
    (s s' : S) (t : AllTexts (listing entries)) (many : 0 < length entries)
    (few : length entries < 2 ^ 31) (full : 2 < length (listing entries)) where
  listing_first :
      (first_text (bytes "rid") (listing entries) ≡ some (bytes "0"))
      × (first_text (bytes "count") (listing entries) ≡ some (decimal (length entries)))
  unfolding listing rid bytes starts_with
  listing_first =
      (refl, unless_empty-some (decimal (length entries)) (length-decimal (length entries)))

  -- An answer that lists accounts, one at least, fewer than 2^31 and not all without pairs, where
  -- every text comes through: the call succeeds, and gives an array with a place for each of them
  -- that holds NULL.
  pub mc_account_list-nulls :
      link 2 5 none s ≡ ok (some (items (listing entries) rest), s')
      → mc_account_list link (some session) s ≡ ok (mc_ok, some (nulls (length entries)), s')
  unfolding mc_account_list request finish is_fault
  mc_account_list-nulls e = rw e (
      rw
        (read_list-nulls zeroed_account (account_uuid session) account_fields account_names
          (listing entries) rest t (length entries) many few full listing_first.0 listing_first.1)
        refl)

  -- An answer that lists devices, one at least, likewise.
  pub mc_device_list-nulls :
      link 3 3 none s ≡ ok (some (items (listing entries) rest), s')
      → mc_device_list link (some session) s ≡ ok (mc_ok, some (nulls (length entries)), s')
  unfolding mc_device_list request finish is_fault
  mc_device_list-nulls e = rw e (
      rw
        (read_list-nulls zeroed_device _ device_fields device_names (listing entries) rest t
          (length entries) many few full listing_first.0 listing_first.1)
        refl)
