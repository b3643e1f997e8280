-- ===== src/Base/Text.antt =====
-- `str`: equality, `contains`, and the trimming of one character, which is given by its code.
use Prim.Native.Nat.{ℕ}
use Prim.Native.Char.{code}
use Prim.Native.String.{String, len, find, [], ◌∷◌}
use text.Mathlib.Text.{◌==◌ as same_text}
use text.Mathlib.TextEquality.{eq_iff}
use mathlib.Core.Bool.{Bool}
use balances_watcher.Base.Tests.{Eq, leb, nat_beq, if◌then◌else◌}
use Prim.Native.String

infixr 60 ◌^^◌
abbrev pub ◌^^◌ : String → String → String
s ^^ t = String.◌++◌ s t

instance abbrev pub string_eq : Eq String
string_eq = record { beq = same_text; beq_iff = eq_iff }

abbrev pub contains_text : String → String → Bool
contains_text s pattern = leb (find s pattern) (len s)

unfoldable pub trim_start_matches : ℕ → String → String
trim_start_matches c [] = []
trim_start_matches c (d ∷ s) = if nat_beq (code d) c then trim_start_matches c s else d ∷ s

unfoldable pub trim_end_matches : ℕ → String → String
trim_end_matches c [] = []
trim_end_matches c (d ∷ s) = elim (trim_end_matches c s) [
  | [] ↦ if nat_beq (code d) c then [] else d ∷ []
  | e ∷ rest ↦ d ∷ (e ∷ rest)
]
