-- ===== src/Prelude/Printing.antt =====
-- What the code uses of the C library to make and read texts, which are lists of bytes with no 0:
-- literals, `tolower`, and numbers by `sprintf` and `atoi`.
use Prim.Native.Nat.{ℕ, zero, suc, ◌+◌, ◌-◌, ◌*◌, ◌/◌, ◌%◌, ◌^◌, ◌≤◌, ◌<◌}
use Prim.Native.Char.{code}
use Prim.Native.String.{String, [] as empty, ◌∷◌ as ◌followed_by◌}
use mathlib.Core.Bool.{Bool, true, ◌&&◌}
use mathlib.Core.Path.{◌≡◌, refl, ap, ◌∙◌}
use mathlib.Core.Logic.{inl, inr}
use mathlib.Core.List.{List, [], ◌∷◌, ◌++◌}
use native.Mathlib.Omega.{arith}
use livezure.Prelude.Tests.{◌==◌, ltb, leb, if◌then◌else◌, Bool-cases}
use livezure.Prelude.Lists.{length, length-append}
use livezure.Prelude.Memory.{Run, ok, out_of_range, ◌>>◌, guard}

abbrev pub Text : Type 0
Text = List ℕ

-- The bytes of a literal, all of them ASCII.
unfoldable pub bytes : String → Text
bytes empty = []
bytes (c followed_by s) = code c ∷ bytes s

-- `sprintf` of a text into a buffer of `size` bytes.
unfoldable pub sprintf : ℕ → Text → Run Text
sprintf size text = guard (ltb (length text) size) out_of_range >> ok text

-- `tolower` in the C locale.
unfoldable pub tolower : ℕ → ℕ
tolower c = if leb 65 c && leb c 90 then c + 32 else c

-- The decimal digits of a number below `10 ^ fuel`.
unfoldable pub digits : ℕ → ℕ → Text
digits zero n = []
digits (suc fuel) n =
    let rest = digits fuel (n / 10) in
    if ltb n 10 then (48 + n) ∷ [] else rest ++ ((48 + n % 10) ∷ [])

-- `%d` of an `int` by its bit pattern.
unfoldable pub decimal : ℕ → Text
decimal n = if ltb n (2 ^ 31) then digits 10 n else b'-' ∷ digits 10 (2 ^ 32 - n)

-- The number that the digits at the start of a text stand for.
unfoldable pub read_digits : ℕ → Text → ℕ
read_digits acc [] = acc
read_digits acc (c ∷ text) =
    let rest = read_digits (acc * 10 + (c - 48)) text in if leb 48 c && leb c 57 then rest else acc

is_space : ℕ → Bool
is_space c = if c == 32 then true else leb 9 c && leb c 13

skip_spaces : Text → Text
skip_spaces [] = []
skip_spaces (c ∷ text) = if is_space c then skip_spaces text else c ∷ text

-- A number that is no `int` has no defined result.
unfoldable pub positive : ℕ → Run ℕ
positive n = guard (ltb n (2 ^ 31)) out_of_range >> ok n

unfoldable pub negative : ℕ → Run ℕ
negative n = guard (leb n (2 ^ 31)) out_of_range >> ok ((2 ^ 32 - n) % 2 ^ 32)

signed : Text → Run ℕ
signed [] = ok 0
signed (c ∷ text) =
    if c == b'-'
    then negative (read_digits 0 text)
    else (if c == b'+' then positive (read_digits 0 text) else positive (read_digits 0 (c ∷ text)))

-- `atoi`: the bit pattern of the `int`.
unfoldable pub atoi : Text → Run ℕ
unfolding signed skip_spaces is_space
atoi text = signed (skip_spaces text)

-- The texts that are made of digits alone.
abbrev pub AllDigits : Text → Type 0
AllDigits [] = Unit
AllDigits (c ∷ text) = (48 ≤ c) × (c < 58) × AllDigits text

AllDigits-snoc :
    (text : Text) (c : ℕ) → AllDigits text → 48 ≤ c → c < 58 → AllDigits (text ++ (c ∷ []))
AllDigits-snoc [] c a h k = (h, k, tt)
AllDigits-snoc (x ∷ text) c a h k = (a.0, a.1, AllDigits-snoc text c a.2 h k)

digits-AllDigits : (fuel n : ℕ) → AllDigits (digits fuel n)
unfolding digits
digits-AllDigits zero n = tt
digits-AllDigits (suc fuel) n = elim (Bool-cases (ltb n 10)) [
  | inl small ↦ rw small (omega arith, ground arith, tt)
  | inr large ↦ rw large (
      AllDigits-snoc (digits fuel (n / 10)) (48 + n % 10) (digits-AllDigits fuel (n / 10))
        (omega arith) (omega arith))
]

read_digits-snoc :
    (acc : ℕ) (text : Text) (c : ℕ)
    → AllDigits text
    → 48 ≤ c
    → c < 58
    → read_digits acc (text ++ (c ∷ [])) ≡ read_digits acc text * 10 + (c - 48)
unfolding read_digits
read_digits-snoc acc [] c a h k = ground arith
read_digits-snoc acc (x ∷ text) c a h k =
    ground (arith, read_digits-snoc (acc * 10 + (x - 48)) text c a.2 h k)

pow_suc : (f : ℕ) → 10 ^ suc f ≡ 10 ^ f * 10
pow_suc f = grind arith

read_digits-digits : (fuel n : ℕ) → n < 10 ^ fuel → read_digits 0 (digits fuel n) ≡ n
unfolding digits
read_digits-digits zero n h = unfold read_digits in omega arith
read_digits-digits (suc fuel) n h = elim (Bool-cases (ltb n 10)) [
  | inl small ↦ rw small (unfold read_digits in ground arith)
  | inr large ↦ rw large (
      omega (
        arith,
        read_digits-snoc 0 (digits fuel (n / 10)) (48 + n % 10) (digits-AllDigits fuel (n / 10))
            (omega arith) (omega arith),
        read_digits-digits fuel (n / 10) (omega (arith, pow_suc fuel, h)),
      ))
]

-- A text that begins with a digit has no spaces and no sign in front.
atoi-digits :
    (text : Text) (c : ℕ) → 48 ≤ c → c < 58 → atoi (c ∷ text) ≡ positive (read_digits 0 (c ∷ text))
unfolding atoi skip_spaces is_space signed
atoi-digits text c h k = ground arith

starts_digit :
    (text : Text) → AllDigits text → 0 < length text → atoi text ≡ positive (read_digits 0 text)
starts_digit [] a h = absurd (omega arith)
starts_digit (c ∷ text) a h = atoi-digits text c a.0 a.1

length-digits : (fuel n : ℕ) → 0 < length (digits (suc fuel) n)
unfolding digits
length-digits fuel n = elim (Bool-cases (ltb n 10)) [
  | inl small ↦ rw small (omega arith)
  | inr large ↦ rw large (omega (arith, length-append (digits fuel (n / 10)) ((48 + n % 10) ∷ [])))
]

pub length-decimal : (n : ℕ) → 0 < length (decimal n)
unfolding decimal
length-decimal n = elim (Bool-cases (ltb n (2 ^ 31))) [
  | inl p ↦ rw p (length-digits 9 n)
  | inr q ↦ rw q (omega arith)
]

atoi-minus : (text : Text) → atoi (b'-' ∷ text) ≡ negative (read_digits 0 text)
unfolding atoi skip_spaces is_space signed
atoi-minus text = refl

read_decimal : (n : ℕ) → n < 2 ^ 32 → read_digits 0 (digits 10 n) ≡ n
read_decimal n h = read_digits-digits 10 n (omega arith)

-- `atoi` gives back what `sprintf` printed with `%d`.
pub atoi-decimal : (n : ℕ) → n < 2 ^ 32 → atoi (decimal n) ≡ ok n
unfolding decimal
atoi-decimal n h = elim (Bool-cases (ltb n (2 ^ 31))) [
  | inl p ↦ rw p (
      starts_digit (digits 10 n) (digits-AllDigits 10 n) (length-digits 9 n)
      ∙ (ap positive (read_decimal n h) ∙ (unfold positive in ground arith)))
  | inr q ↦ rw q (
      atoi-minus (digits 10 (2 ^ 32 - n))
      ∙ (ap negative (read_decimal (2 ^ 32 - n) (ground arith))
          ∙ (unfold negative in ground arith)))
]
