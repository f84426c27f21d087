-- ===== src/Utils/HashKey.antt =====
-- hashkey.c of the folder utils: the text that stands for a password in the database. SHA-1 and MD5
-- are parameters.
mod Tests
use livezure.Prelude.{
  ℕ, suc, ◌+◌, ◌/◌, ◌%◌, ◌≤◌, ◌≡◌, refl, sym, ap, ◌∙◌, if◌then◌else◌, ltb, List, [], ◌∷◌, ◌++◌,
  length, length-append, append_assoc, drop, Run, ok, ◌>>=◌, store, store_lem, patch, zeros, Text,
  arith,
}

unfoldable pub hex_digit : ℕ → ℕ
hex_digit n = if ltb n 10 then 48 + n else 55 + n

-- `sprintf(hex, "%02X", ...)` of a byte.
unfoldable pub hex : ℕ → Text
hex b = hex_digit (b / 16) ∷ hex_digit (b % 16) ∷ []

-- The loop: each round writes two bytes, and `md` advances by one.
write_all : List ℕ → ℕ → List ℕ → Run (List ℕ)
write_all [] i md = ok md
write_all (b ∷ digest) i md = store md i (hex b) >>= write_all digest (i + 1)

-- `gen_hash_key(md, pwd, -1)`: what the memory at `md` becomes. The digest of SHA-1 has 20 bytes,
-- and is given to MD5 with the 12 zeros behind it.
pub gen_hash_key : (Text → List ℕ) → (List ℕ → List ℕ) → List ℕ → Text → Run (List ℕ)
gen_hash_key sha1 md5 md pwd = write_all (md5 (sha1 pwd ++ zeros 12)) 0 md

-- The first digit of each byte, and the second of the last.
unfoldable pub written : List ℕ → Text
written [] = []
written (b ∷ []) = hex b
written (b ∷ c ∷ digest) = hex_digit (b / 16) ∷ written (c ∷ digest)

patch-append : (pre rest d : List ℕ) → patch (pre ++ rest) (length pre) d ≡ pre ++ patch rest 0 d
unfolding patch
patch-append [] rest d = refl
patch-append (x ∷ pre) rest d = ap (λ t. x ∷ t) (patch-append pre rest d)

patch_nil : (xs : List ℕ) → patch xs 0 [] ≡ xs
unfolding patch
patch_nil [] = refl
patch_nil (x ∷ xs) = refl

store_at :
    (b x y : ℕ) (pre rest : List ℕ)
    → store (pre ++ (x ∷ y ∷ rest)) (length pre) (hex b) ≡ ok (pre ++ (hex b ++ rest))
unfolding hex patch
store_at b x y pre rest =
    store_lem (pre ++ (x ∷ y ∷ rest)) (length pre) (hex b)
      (omega (arith, length-append pre (x ∷ y ∷ rest)))
    ∙ ap ok (
        patch-append pre (x ∷ y ∷ rest) (hex b)
        ∙ ap (λ t. pre ++ (hex_digit (b / 16) ∷ hex_digit (b % 16) ∷ t)) (patch_nil rest))

length-snoc : (pre : List ℕ) (x : ℕ) → length pre + 1 ≡ length (pre ++ (x ∷ []))
length-snoc pre x = omega (arith, length-append pre (x ∷ []))

write_all_lem :
    (b : ℕ) (digest pre rest : List ℕ)
    → length digest + 2 ≤ length rest
    → write_all (b ∷ digest) (length pre) (pre ++ rest)
      ≡ ok (pre ++ (written (b ∷ digest) ++ drop (suc (suc (length digest))) rest))
unfolding write_all written hex
write_all_lem b digest pre [] h = absurd (omega arith)
write_all_lem b digest pre (x ∷ []) h = absurd (omega arith)
write_all_lem b [] pre (x ∷ y ∷ rest) h = rw (store_at b x y pre rest) refl
write_all_lem b (c ∷ digest) pre (x ∷ y ∷ rest) h = rw (store_at b x y pre rest) (
    ap (λ k. write_all (c ∷ digest) k (pre ++ (h1 ∷ h2 ∷ rest))) (length-snoc pre h1)
    ∙ (ap (write_all (c ∷ digest) (length (pre ++ (h1 ∷ []))))
          (sym (append_assoc pre (h1 ∷ []) (h2 ∷ rest)))
        ∙ (write_all_lem c digest (pre ++ (h1 ∷ [])) (h2 ∷ rest) (omega arith)
            ∙ ap ok (
                append_assoc pre (h1 ∷ [])
                  (written (c ∷ digest) ++ drop (suc (suc (length digest))) (h2 ∷ rest))))))
  where
    h1 : ℕ
    h1 = hex_digit (b / 16)

    h2 : ℕ
    h2 = hex_digit (b % 16)

-- The key of a password is the first hexadecimal digit of every byte of the digest and the second
-- of the last, in n + 1 bytes for a digest of n; the memory behind these is not written. The digest
-- has a byte at least, and the memory has room for the key.
pub gen_hash_key_lem :
    (sha1 : Text → List ℕ) (md5 : List ℕ → List ℕ) (md : List ℕ) (pwd : Text) (b : ℕ)
    (digest : List ℕ)
    → md5 (sha1 pwd ++ zeros 12) ≡ b ∷ digest
    → length digest + 2 ≤ length md
    → gen_hash_key sha1 md5 md pwd
      ≡ ok (written (b ∷ digest) ++ drop (suc (suc (length digest))) md)
unfolding gen_hash_key
gen_hash_key_lem sha1 md5 md pwd b digest e h = rw e (write_all_lem b digest [] md h)
