-- ===== src/Prelude/Texts.antt =====
-- C strings: the bytes before the terminating NUL. `strcmp` compares them as unsigned bytes.
use Prim.Native.Nat.{ℕ, compare, Ordering}
use Prim.Native.Char.{code}
use Prim.Native.String.{String}
use mathlib.Core.Bool.{Bool, true, false}
use mathlib.Core.List.{List, [], ◌∷◌}
use native.Mathlib.Decide.{ℕ_discrete}

abbrev pub Text : Type 0
Text = List ℕ

abbrev pub codes : String → Text
codes String.[] = []
codes (String.◌∷◌ c s) = code c ∷ codes s

unfoldable pub Text-discrete : Discrete Text
Text-discrete = hlevel ℕ_discrete

-- strcmp(a, b) == 0
abbrev pub same : Text → Text → Bool
same a b = elim (Text-discrete a b) [ yes _ ↦ true | no _ ↦ false ]

-- s[0] == '\0'
abbrev pub is_empty : Text → Bool
is_empty [] = true
is_empty (c ∷ s) = false

-- strcmp(a, b) > 0
unfoldable pub greater : Text → Text → Bool
greater [] b = false
greater (x ∷ a) [] = true
greater (x ∷ a) (y ∷ b) =
    let rest = greater a b in
    elim (compare x y) [ Ordering.lt ↦ false | Ordering.eq ↦ rest | Ordering.gt ↦ true ]
