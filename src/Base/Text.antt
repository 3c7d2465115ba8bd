-- ===== src/Base/Text.antt =====
-- Text: its characters as numbers, Python's order of texts, `in`, and lists of texts.
use Prim.Native.Nat.{ℕ}
use Prim.Native.Char.{code}
use Prim.Native.String.{String}
use mathlib.Core.Bool.{Bool, true, false}
use mathlib.Core.Option.{Option, none, some}
use mathlib.Core.List.{List, [], ◌∷◌}
use text.Mathlib.Text.{◌==◌ as str_eq}
use arkana.Base.Tests.{ltb, ◌==◌}
use arkana.Base.Lists.{any_of}

-- The code points of a text.
abbrev pub codes : String → List ℕ
codes String.[] = []
codes (String.◌∷◌ c s) = code c ∷ codes s

-- `a <= b` on texts
abbrev pub codes_le : List ℕ → List ℕ → Bool
codes_le [] bs = true
codes_le (a ∷ as_) [] = false
codes_le (a ∷ as_) (b ∷ bs) = elim (a == b) [ true ↦ codes_le as_ bs | false ↦ ltb a b ]

abbrev pub text_in : String → List String → Bool
text_in a = any_of (λ b. str_eq a b)

-- `sorted(xs)` of texts: an insertion sort, which is stable.
abbrev pub insert_text : String → List String → List String
insert_text a [] = a ∷ []
insert_text a (b ∷ rest) = elim (codes_le (codes a) (codes b)) [
  | true ↦ a ∷ b ∷ rest
  | false ↦ b ∷ insert_text a rest
]

unfoldable pub sort_texts : List String → List String
sort_texts [] = []
sort_texts (a ∷ rest) = insert_text a (sort_texts rest)

-- `len(xs) == len(set(xs))`
abbrev pub are_distinct : List String → Bool
are_distinct [] = true
are_distinct (a ∷ rest) = elim (text_in a rest) [ true ↦ false | false ↦ are_distinct rest ]

-- `a in b` on texts
abbrev pub starts : List ℕ → List ℕ → Bool
starts [] bs = true
starts (a ∷ as_) [] = false
starts (a ∷ as_) (b ∷ bs) = elim (a == b) [ true ↦ starts as_ bs | false ↦ false ]

abbrev pub occurs : List ℕ → List ℕ → Bool
occurs part [] = starts part []
occurs part (b ∷ bs) = elim (starts part (b ∷ bs)) [ true ↦ true | false ↦ occurs part bs ]

-- `f"{a}{b}"`
unfoldable pub append_text : String → String → String
append_text String.[] b = b
append_text (String.◌∷◌ c a) b = String.◌∷◌ c (append_text a b)

-- The truth of a text, or of `None`.
abbrev pub is_given : Option String → Bool
is_given none = false
is_given (some String.[]) = false
is_given (some (String.◌∷◌ c s)) = true

abbrev pub same_text? : Option String → Option String → Bool
same_text? none none = true
same_text? (some a) (some b) = str_eq a b
same_text? none (some b) = false
same_text? (some a) none = false
