-- ===== src/Prelude/Texts.antt =====
-- Text as a list of code points, where the program takes it apart; split and its inverse facts.
use Prim.Native.Nat.{ℕ}
use Prim.Native.Char.{code}
use Prim.Native.String.{String}
use mathlib.Core.Path.{◌≡◌, refl}
use mathlib.Core.Logic.{◌↔◌, ◌≢◌}
use mathlib.Core.Bool.{Bool, true, false, ◌&&◌}
use mathlib.Core.List.{List, [], ◌∷◌, ◌++◌}
use mathlib.Core.Option.{Option, none, some}
use native.Mathlib.Omega.{arith}
use text.Mathlib.Text.{◌==◌ as str_eq}
use alibabacloud_erdma_contr.Prelude.Tests.{◌==◌, ==_iff, if◌then◌else◌}
use alibabacloud_erdma_contr.Prelude.Lists.{All}

abbrev pub Text : Type 0
Text = List ℕ

-- The code points of a text: its bytes, if it is ASCII.
abbrev pub codes : String → Text
codes String.[] = []
codes (String.◌∷◌ c s) = code c ∷ codes s

unfoldable pub text_eq : Text → Text → Bool
text_eq [] [] = true
text_eq [] (b ∷ t) = false
text_eq (a ∷ s) [] = false
text_eq (a ∷ s) (b ∷ t) = (a == b) && text_eq s t

pub text_eq_iff : (s t : Text) → (text_eq s t ≡ true) ↔ (s ≡ t)
unfolding text_eq
text_eq_iff [] [] = ground arith
text_eq_iff [] (b ∷ t) = ground arith
text_eq_iff (a ∷ s) [] = ground arith
text_eq_iff (a ∷ s) (b ∷ t) = ground (arith, text_eq_iff s t, ==_iff a b)

pub text_eq_refl : (s : Text) → text_eq s s ≡ true
text_eq_refl s = (text_eq_iff s s).1 refl

-- `p != nil && *p == s`
abbrev pub opt_is : Option String → String → Bool
opt_is none s = false
opt_is (some t) s = str_eq t s

-- A character goes to the first of the pieces.
abbrev onto_first : ℕ → List Text → List Text
onto_first c [] = (c ∷ []) ∷ []
onto_first c (p ∷ ps) = (c ∷ p) ∷ ps

-- `strings.Split` at a one-character separator
unfoldable pub split : ℕ → Text → List Text
split sep [] = [] ∷ []
split sep (c ∷ s) = if c == sep then [] ∷ split sep s else onto_first c (split sep s)

unfoldable pub trim_left : ℕ → Text → Text
trim_left b [] = []
trim_left b (c ∷ t) = if c == b then trim_left b t else c ∷ t

abbrev only : ℕ → ℕ → Text → Bool
only b c [] = c == b
only b c (d ∷ t) = false

unfoldable pub trim_right : ℕ → Text → Text
trim_right b [] = []
trim_right b (c ∷ t) = let rest = trim_right b t in if only b c rest then [] else c ∷ rest

-- `strings.Trim` of one character
unfoldable pub trim : ℕ → Text → Text
unfolding trim_left trim_right
trim b t = trim_right b (trim_left b t)

-- No character of the text is `c`.
abbrev pub Without : ℕ → Text → Type 0
Without c = All (λ a. a ≢ c)

pub split-append :
    (sep : ℕ) (s t : Text) → Without sep s → split sep (s ++ sep ∷ t) ≡ s ∷ split sep t
unfolding split
split-append sep [] t h = ground (arith, (==_iff sep sep).1 refl)
split-append sep (a ∷ s) t h = ground (arith, split-append sep s t h.1, ==_iff a sep)

pub split-Without : (sep : ℕ) (s : Text) → Without sep s → split sep s ≡ s ∷ []
unfolding split
split-Without sep [] h = refl
split-Without sep (a ∷ s) h = ground (arith, split-Without sep s h.1, ==_iff a sep)
