-- ===== src/Service/Handlers/Args.antt =====
-- What a handler or a client reads from a stream of pairs: the value of the first pair whose key
-- begins with the text, unless it is empty.
use livezure.Prelude.{
  ◌<◌, ◌≡◌, refl, ap, ◌∙◌, if◌then◌else◌, Bool-cases, inl, inr, List, [], ◌∷◌, ◌++◌, length, arith,
  Option, none, some, starts_with, Text,
}
use livezure.Rpc.Parser.{get}
use livezure.Rpc.Parser.Stream.{Pair, IsClean, until_nul, value_of as stored_value}
use livezure.Rpc.Parser.RoundTrip.{items}
use livezure.Rpc.Parser.Lookup.{first_match, find-items}
use livezure.Rpc.Parser.Pack.{IsText, AllTexts}
use livezure.Service.Handlers.{arg, value_of}

abbrev pub unless_empty : Text → Option Text
unless_empty [] = none
unless_empty (x ∷ xs) = some (x ∷ xs)

pub unless_empty-some : (text : Text) → 0 < length text → unless_empty text ≡ some text
unless_empty-some [] h = absurd (omega arith)
unless_empty-some (x ∷ text) h = refl

abbrev pub first_text : Text → List Pair → Option Text
first_text text [] = none
first_text text (p ∷ ps) =
    if starts_with p.key text then unless_empty p.value else first_text text ps

pub until_nul-text : (text : Text) → IsText text → until_nul (text ++ (0 ∷ [])) ≡ text
unfolding until_nul
until_nul-text [] t = refl
until_nul-text (x ∷ xs) t = ground (arith, until_nul-text xs t.1)

value_of-stored :
    (value : Text)
    → IsText value
    → value_of (some (stored_value value, length value)) ≡ unless_empty value
unfolding value_of
value_of-stored [] t = refl
value_of-stored (x ∷ xs) t = ap some (until_nul-text (x ∷ xs) t)

value_of-first :
    (text : Text) (ps : List Pair)
    → AllTexts ps
    → value_of (first_match text ps) ≡ first_text text ps
value_of-first text [] t = unfold value_of in refl
value_of-first text (p ∷ ps) t = elim (Bool-cases (starts_with p.key text)) [
  | inl this ↦ rw this (value_of-stored p.value t.1)
  | inr other ↦ rw other (value_of-first text ps t.2)
]

pub arg-items :
    (ps : List Pair) (rest text : Text)
    → AllTexts ps
    → IsClean text
    → arg (some (items ps rest)) text ≡ first_text text ps
unfolding arg get
arg-items ps rest text t clean =
    ap value_of (find-items ps rest text clean) ∙ value_of-first text ps t
