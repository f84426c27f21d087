-- ===== src/Prelude/Memory.antt =====
-- Byte buffers as lists, copies into and out of them, and the outcome of a run of C code.
use Prim.Native.Nat.{ℕ, zero, suc, ◌+◌, ◌-◌, ◌≤◌}
use mathlib.Core.Path.{◌≡◌, refl, ap, ◌∙◌}
use mathlib.Core.Bool.{Bool, true, false}
use mathlib.Core.List.{List, [], ◌∷◌, ◌++◌}
use native.Mathlib.Omega.{arith}
use livezure.Prelude.Tests.{leb}
use livezure.Prelude.Lists.{length, take, drop}

-- How a run leaves defined behaviour: an access outside its object, a store through a pointer that
-- points to no object of the program, an assertion that fails, fuel of the model that runs out.
pub data Fault : Type 0 where
  out_of_range wild_store failed_assert out_of_fuel : Fault

pub data Run {ℓ} (A : Type ℓ) : Type ℓ where
  ok : A → Run A
  fault : Fault → Run A

abbrev pub ◌>>=◌ {κ μ} : {S : Type κ} {T : Type μ} → Run S → (S → Run T) → Run T
fault why >>= next = fault why
ok result >>= next = next result

infixl 5 ◌>>=◌
-- `assert`, or the condition under which an access is defined.
abbrev pub guard : Bool → Fault → Run (Unit {0})
guard false why = fault why
guard true why = ok tt

infixl 5 ◌>>◌
abbrev pub ◌>>◌ {μ} : {T : Type μ} → Run (Unit {0}) → Run T → Run T
first >> second = first >>= λ _. second

-- What a successful run says of its first part.
pub >>=-eq-ok {κ μ} :
    {S : Type κ} {T : Type μ} (first : Run S) (next : S → Run T) {t : T}
    → first >>= next ≡ ok t
    → (s : S) × (first ≡ ok s) × (next s ≡ ok t)
>>=-eq-ok (fault why) next run = cc
>>=-eq-ok (ok result) next run = (result, refl, run)

pub bind_assoc {κ μ ν} :
    {R : Type κ} {S : Type μ} {T : Type ν} (first : Run R) (f : R → Run S) (g : S → Run T)
    → (first >>= f) >>= g ≡ first >>= λ r. f r >>= g
bind_assoc (fault why) f g = refl
bind_assoc (ok result) f g = refl

-- The bytes of `d` put over those of the buffer from `off` on; what does not fit is dropped.
unfoldable pub patch : List ℕ → ℕ → List ℕ → List ℕ
patch [] off d = []
patch (x ∷ xs) zero [] = x ∷ xs
patch (x ∷ xs) zero (y ∷ d) = y ∷ patch xs zero d
patch (x ∷ xs) (suc off) d = x ∷ patch xs off d

-- `memcpy` out of a buffer at an offset, and into it.
abbrev pub load : List ℕ → ℕ → ℕ → Run (List ℕ)
load buf off n = guard (leb (off + n) (length buf)) out_of_range >> ok (take n (drop off buf))

abbrev pub store : List ℕ → ℕ → List ℕ → Run (List ℕ)
store buf off d = guard (leb (off + length d) (length buf)) out_of_range >> ok (patch buf off d)

pub length-patch : (buf : List ℕ) (off : ℕ) (d : List ℕ) → length (patch buf off d) ≡ length buf
unfolding patch
length-patch [] off d = refl
length-patch (x ∷ xs) zero [] = refl
length-patch (x ∷ xs) zero (y ∷ d) = ap suc (length-patch xs zero d)
length-patch (x ∷ xs) (suc off) d = ap suc (length-patch xs off d)

-- The bytes up to the end of what was written.
pub take-patch :
    (buf : List ℕ) (off : ℕ) (d : List ℕ) (n : ℕ)
    → off + length d ≤ length buf
    → n ≡ off + length d
    → take n (patch buf off d) ≡ take off buf ++ d
unfolding patch
take-patch [] zero [] zero h e = refl
take-patch [] zero [] (suc n) h e = absurd (omega arith)
take-patch [] zero (y ∷ d) n h e = absurd (omega arith)
take-patch [] (suc off) d n h e = absurd (omega arith)
take-patch (x ∷ xs) zero [] zero h e = refl
take-patch (x ∷ xs) zero [] (suc n) h e = absurd (omega arith)
take-patch (x ∷ xs) zero (y ∷ d) zero h e = absurd (omega arith)
take-patch (x ∷ xs) zero (y ∷ d) (suc n) h e =
    ap (λ t. y ∷ t) (take-patch xs zero d n (omega arith) (omega arith))
take-patch (x ∷ xs) (suc off) d zero h e = absurd (omega arith)
take-patch (x ∷ xs) (suc off) d (suc n) h e =
    ap (λ t. x ∷ t) (take-patch xs off d n (omega arith) (omega arith))

-- A write past the first `n` bytes acts on the rest.
pub drop-patch :
    (buf : List ℕ) (off : ℕ) (d : List ℕ) (n : ℕ)
    → n ≤ off
    → drop n (patch buf off d) ≡ patch (drop n buf) (off - n) d
unfolding patch
drop-patch [] off d zero h = refl
drop-patch [] off d (suc n) h = refl
drop-patch (x ∷ xs) off d zero h = ap (λ k. patch (x ∷ xs) k d) (omega arith)
drop-patch (x ∷ xs) zero d (suc n) h = absurd (omega arith)
drop-patch (x ∷ xs) (suc off) d (suc n) h =
    drop-patch xs off d n (omega arith) ∙ ap (λ k. patch (drop n xs) k d) (omega arith)

-- A write before the first `n` bytes leaves the rest alone.
pub drop-patch_past :
    (buf : List ℕ) (off : ℕ) (d : List ℕ) (n : ℕ)
    → off + length d ≤ n
    → drop n (patch buf off d) ≡ drop n buf
unfolding patch
drop-patch_past [] off d n h = refl
drop-patch_past (x ∷ xs) zero [] n h = refl
drop-patch_past (x ∷ xs) zero (y ∷ d) zero h = absurd (omega arith)
drop-patch_past (x ∷ xs) zero (y ∷ d) (suc n) h = drop-patch_past xs zero d n (omega arith)
drop-patch_past (x ∷ xs) (suc off) d zero h = absurd (omega arith)
drop-patch_past (x ∷ xs) (suc off) d (suc n) h = drop-patch_past xs off d n (omega arith)

-- A write after the first `n` bytes leaves them alone.
pub take-patch_before :
    (buf : List ℕ) (off : ℕ) (d : List ℕ) (n : ℕ) → n ≤ off → take n (patch buf off d) ≡ take n buf
unfolding patch
take-patch_before [] off d n h = refl
take-patch_before (x ∷ xs) off d zero h = refl
take-patch_before (x ∷ xs) zero d (suc n) h = absurd (omega arith)
take-patch_before (x ∷ xs) (suc off) d (suc n) h =
    ap (λ t. x ∷ t) (take-patch_before xs off d n (omega arith))

-- A `malloc` for the tests: memory that holds zeros.
abbrev pub zeros : ℕ → List ℕ
zeros zero = []
zeros (suc n) = 0 ∷ zeros n

pub length-zeros : (n : ℕ) → length (zeros n) ≡ n
length-zeros zero = refl
length-zeros (suc n) = ap suc (length-zeros n)

-- Copies that stay inside.
pub load_lem :
    (buf : List ℕ) (off n : ℕ) → off + n ≤ length buf → load buf off n ≡ ok (take n (drop off buf))
load_lem buf off n h = ground arith

pub store_lem :
    (buf : List ℕ) (off : ℕ) (d : List ℕ)
    → off + length d ≤ length buf
    → store buf off d ≡ ok (patch buf off d)
store_lem buf off d h = ground arith
