-- ===== src/Prelude/CString.antt =====
-- What the code uses of the C library on texts and numbers in memory. A memory is the list of the
-- bytes from a pointer to the end of its object; a text in it ends at the first 0.
use Prim.Native.Nat.{ℕ, ◌+◌, ◌*◌, ◌/◌, ◌%◌, ◌^◌}
use mathlib.Core.Bool.{Bool, true, false, ◌&&◌}
use mathlib.Core.Path.{◌≡◌, refl}
use native.Mathlib.Omega.{arith}
use mathlib.Core.Option
use mathlib.Core.Option.{Option, none, some}
use mathlib.Core.List.{List, [], ◌∷◌}
use livezure.Prelude.Tests.{◌==◌, ltb, if◌then◌else◌}
use livezure.Prelude.Memory.{Run, ok, fault, out_of_range, ◌>>=◌}

unfoldable pub strlen : List ℕ → Run ℕ
strlen [] = fault out_of_range
strlen (x ∷ xs) = if x == 0 then ok 0 else (strlen xs >>= λ n. ok (n + 1))

-- `memcmp(mem, text, n) == 0` for the n bytes of `text`, and `strncmp` alike: it stops where they
-- differ, and so before the end of a memory that ends in a 0 that `text` lacks.
unfoldable pub starts_with : List ℕ → List ℕ → Bool
starts_with mem [] = true
starts_with [] (y ∷ ys) = false
starts_with (x ∷ xs) (y ∷ ys) = x == y && starts_with xs ys

-- The offset of the first place where `text` stands.
unfoldable pub strstr : List ℕ → List ℕ → Run (Option ℕ)
unfolding starts_with
strstr [] text = fault out_of_range
strstr (x ∷ xs) text =
    let later = strstr xs text >>= λ o. ok (Option.map (λ n. n + 1) o) in
    if starts_with (x ∷ xs) text then ok (some 0) else (if x == 0 then ok none else later)

-- An `int` is its bit pattern, below 2^32.
abbrev pub int : ℕ → ℕ
int n = n % 2 ^ 32

-- `a < b` on the signed values of two patterns.
abbrev pub int_ltb : ℕ → ℕ → Bool
int_ltb a b = ltb ((a + 2 ^ 31) % 2 ^ 32) ((b + 2 ^ 31) % 2 ^ 32)

-- The bytes of an `int` on a little-endian machine, and the `int` that four bytes stand for.
abbrev pub int_bytes : ℕ → List ℕ
int_bytes n = n % 256 ∷ n / 256 % 256 ∷ n / 65536 % 256 ∷ n / 16777216 % 256 ∷ []

abbrev pub int_of_bytes : List ℕ → ℕ
int_of_bytes (a ∷ b ∷ c ∷ d ∷ _) = a + 256 * b + 65536 * c + 16777216 * d
int_of_bytes _ = 0

-- `strcmp(a, b) == 0` on texts.
unfoldable pub text_eq : List ℕ → List ℕ → Bool
text_eq [] [] = true
text_eq [] (y ∷ ys) = false
text_eq (x ∷ xs) [] = false
text_eq (x ∷ xs) (y ∷ ys) = x == y && text_eq xs ys

pub text_eq_refl : (xs : List ℕ) → text_eq xs xs ≡ true
unfolding text_eq
text_eq_refl [] = refl
text_eq_refl (x ∷ xs) = ground (arith, text_eq_refl xs)

pub text_eq-eq : (xs ys : List ℕ) → text_eq xs ys ≡ true → xs ≡ ys
unfolding text_eq
text_eq-eq [] [] h = refl
text_eq-eq [] (y ∷ ys) h = cc
text_eq-eq (x ∷ xs) [] h = cc
text_eq-eq (x ∷ xs) (y ∷ ys) h = ground (arith, text_eq-eq xs ys)
