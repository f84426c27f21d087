-- ===== src/Utils/HashKey/Tests.antt =====
-- A digest of two bytes, written into four.
use livezure.Prelude.{◌≡◌, refl, [], ◌∷◌, ok, arith}
use livezure.Utils.HashKey.{hex_digit, hex, written, gen_hash_key, gen_hash_key_lem}

gen_hash_key_lem_example :
    gen_hash_key (λ pwd. pwd) (λ sha. 18 ∷ 171 ∷ []) (0 ∷ 0 ∷ 0 ∷ 7 ∷ []) []
    ≡ ok (b'1' ∷ b'A' ∷ b'B' ∷ 7 ∷ [])
unfolding written hex_digit hex
gen_hash_key_lem_example =
    gen_hash_key_lem (λ pwd. pwd) (λ sha. 18 ∷ 171 ∷ []) (0 ∷ 0 ∷ 0 ∷ 7 ∷ []) [] 18 (171 ∷ []) refl
      (omega arith)
