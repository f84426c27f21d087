-- ===== src/Rpc/Crypt/Tests.antt =====
-- A cipher that adds one to every byte, for runs.
use livezure.Prelude.{
  ℕ, suc, ◌-◌, ◌%◌, ◌≡◌, refl, ap, ◌∙◌, Bool, true, false, List, [], ◌∷◌, ◌++◌, length, take, arith,
}
use livezure.Rpc.Crypt.{Ciphers}

pub shift : Bool → List ℕ → List ℕ
shift enc [] = []
shift true (x ∷ xs) = suc x ∷ shift true xs
shift false (x ∷ xs) = (x - 1) ∷ shift false xs

pub length-shift : (enc : Bool) (xs : List ℕ) → length (shift enc xs) ≡ length xs
unfolding shift
length-shift true [] = refl
length-shift false [] = refl
length-shift true (x ∷ xs) = ap suc (length-shift true xs)
length-shift false (x ∷ xs) = ap suc (length-shift false xs)

shift_back : (xs ys : List ℕ) → take (length xs) (shift false (shift true xs ++ ys)) ≡ xs
unfolding shift
shift_back [] ys = refl
shift_back (x ∷ xs) ys =
    ap (λ t. t ∷ take (length xs) (shift false (shift true xs ++ ys))) (omega arith)
    ∙ ap (λ t. x ∷ t) (shift_back xs ys)

pub shift_inverse :
    (xs ys : List ℕ)
    → length xs % 16 ≡ 0
    → take (length xs) (shift false (shift true xs ++ ys)) ≡ xs
shift_inverse xs ys blocks = shift_back xs ys

abbrev pub shifts : Ciphers
shifts = record { cbc = shift; tea = shift }
