-- ===== src/Text.antt =====
-- What the code uses of Go's package strings, on a text as the list of its code points. A text of
-- the program is valid UTF-8.
pub mod Split
use Prim.Native.Char.{Char, code}
use Prim.Native.String
use enterprise_middleware_go.Prelude.{
  ℕ, ◌+◌, String, Bool, true, false, List, [], ◌∷◌, Option, none, some, leb, eqb, ◌==◌, ◌&&◌, ◌||◌,
  if◌then◌else◌,
}

-- unicode.IsSpace
unfoldable pub is_space : Char → Bool
is_space c =
    let n = code c in
    (leb 9 n && leb n 13)
    || eqb n 0x20
    || eqb n 0x85
    || eqb n 0xa0
    || eqb n 0x1680
    || (leb 0x2000 n && leb n 0x200a)
    || eqb n 0x2028
    || eqb n 0x2029
    || eqb n 0x202f
    || eqb n 0x205f
    || eqb n 0x3000

unfoldable pub trim_left : String → String
trim_left String.[] = ""
trim_left (String.◌∷◌ c s) = elim (is_space c) [ true ↦ trim_left s | false ↦ String.◌∷◌ c s ]

-- A space goes if nothing is left behind it.
abbrev pub keep_char : Char → String → String
keep_char c String.[] = if is_space c then "" else String.◌∷◌ c ""
keep_char c (String.◌∷◌ d s) = String.◌∷◌ c (String.◌∷◌ d s)

unfoldable pub trim_right : String → String
trim_right String.[] = ""
trim_right (String.◌∷◌ c s) = keep_char c (trim_right s)

-- strings.TrimSpace
unfoldable pub trim_space : String → String
unfolding trim_left trim_right is_space
trim_space s = trim_left (trim_right s)

abbrev pub push_head : Char → List String → List String
push_head c [] = String.◌∷◌ c "" ∷ []
push_head c (p ∷ ps) = String.◌∷◌ c p ∷ ps

-- strings.Split for a separator of one ASCII character
unfoldable pub split : ℕ → String → List String
split sep String.[] = "" ∷ []
split sep (String.◌∷◌ c s) =
    let parts = split sep s in if eqb (code c) sep then "" ∷ parts else push_head c parts

-- strings.SplitN for such a separator and 2: the text behind the first separator, if there is one
unfoldable pub split_2 : ℕ → String → String × Option String
split_2 sep String.[] = ("", none)
split_2 sep (String.◌∷◌ c s) =
    let (before, behind) = split_2 sep s in
    if eqb (code c) sep then ("", some s) else (String.◌∷◌ c before, behind)

-- What follows a prefix, if the text has it.
unfoldable pub strip_prefix : String → String → Option String
strip_prefix String.[] s = some s
strip_prefix (String.◌∷◌ d p) String.[] = none
strip_prefix (String.◌∷◌ d p) (String.◌∷◌ c s) =
    if eqb (code c) (code d) then strip_prefix p s else none

abbrev pub is_some {ℓ} : {A : Type ℓ} → Option A → Bool
is_some none = false
is_some (some _) = true

-- strings.HasPrefix
unfoldable pub has_prefix : String → String → Bool
unfolding strip_prefix
has_prefix s prefix = is_some (strip_prefix prefix s)

-- s[i+len(pattern):] for i = strings.Index(s, pattern), if that is not negative
unfoldable pub after : String → String → Option String
unfolding strip_prefix
after pattern String.[] = strip_prefix pattern ""
after pattern (String.◌∷◌ c s) =
    let later = after pattern s in
    elim (strip_prefix pattern (String.◌∷◌ c s)) [ some rest ↦ some rest | none ↦ later ]

-- strings.Contains
unfoldable pub contains : String → String → Bool
unfolding after
contains s pattern = is_some (after pattern s)

abbrev pub to_lower : Char → ℕ
to_lower c = let n = code c in if leb b'A' n && leb n b'Z' then n + 32 else n

-- strings.EqualFold against a text of ASCII letters other than K and S, to which no character
-- outside ASCII folds
unfoldable pub equal_fold : String → String → Bool
equal_fold String.[] String.[] = true
equal_fold (String.◌∷◌ c s) (String.◌∷◌ d t) = eqb (to_lower c) (to_lower d) && equal_fold s t
equal_fold _ _ = false
