-- ===== src/Prelude/Results.antt =====
-- What holds of every result that a run can have.
use mathlib.Core.Path.{◌≡◌, refl}
use mathlib.Core.Bool.{Bool, true, false}
use mathlib.Core.Path.{subst}
use livezure.Prelude.Tests.{if◌then◌else◌}
use livezure.Prelude.Memory.{Run, ok, fault, Fault, ◌>>=◌}

module _ {ℓ κ} {A : Type ℓ} (Q : A → Type κ) where
  abbrev pub Holds : Run A → Type (ℓ ⊔ κ)
  Holds result = (x : A) → result ≡ ok x → Q x

  pub fault-Holds : (why : Fault) → Holds (fault why)
  fault-Holds why x e = cc

  pub ok-Holds : (x : A) → Q x → Holds (ok x)
  ok-Holds x q y e = let same : x ≡ y = cc in subst Q same q

  pub if-Holds :
      (b : Bool) (first second : Run A)
      → (b ≡ true → Holds first)
      → (b ≡ false → Holds second)
      → Holds (if b then first else second)
  if-Holds true first second h k = h refl
  if-Holds false first second h k = k refl

  pub bind-Holds {μ} :
      {B : Type μ} (m : Run B) (f : B → Run A)
      → ((x : B) → m ≡ ok x → Holds (f x))
      → Holds (m >>= f)
  bind-Holds (ok x) f h y e = h x refl y e
  bind-Holds (fault why) f h y e = cc

  pub same-Holds : (first second : Run A) → first ≡ second → Holds second → Holds first
  same-Holds first second e h = rw e h
