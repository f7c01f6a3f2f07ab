-- ===== src/Base/Sets.antt =====
-- `Set` of strings: a list in the order of insertion.
use jupyter_plugin_aitermina.Base.Tests.{if◌then◌else◌}
use jupyter_plugin_aitermina.Base.Strings.{Text, text_eq}
use jupyter_plugin_aitermina.Base.Lists.{any, All}
use mathlib.Core.Bool.{Bool, ◌||◌}
use mathlib.Core.Path.{◌≡◌}
use native.Mathlib.Omega.{arith}
use mathlib.Core.Logic.{◌≢◌}
use mathlib.Core.List.{List, [], ◌∷◌, ◌++◌}

abbrev pub listed : Text → List Text → Bool
listed s = any λ x. text_eq x s

abbrev pub add_to_set : Text → List Text → List Text
add_to_set x set = if listed x set then set else set ++ x ∷ []

-- `new Set(xs)` added to the first argument, in the order of insertion.
unfoldable pub to_set : List Text → List Text → List Text
to_set set [] = set
to_set set (x ∷ xs) = to_set (add_to_set x set) xs

abbrev pub Distinct : List Text → Type 0
Distinct [] = Unit
Distinct (s ∷ ss) = All (λ t. t ≢ s) ss × Distinct ss

pub listed-snoc :
    (s x : Text) (xs : List Text) → listed s (xs ++ x ∷ []) ≡ (listed s xs || text_eq x s)
listed-snoc s x [] = ground arith
listed-snoc s x (y ∷ xs) = ground (arith, listed-snoc s x xs)
