-- ===== src/Text/Split.antt =====
-- Trimming and splitting: what the parts of a text are.
use Prim.Native.Char.{Char, code}
use Prim.Native.String
use text.Mathlib.TextLemmas.{nil-append, cons-append, cons-ne-nil}
use mathlib.Core.Path.{subst}
use enterprise_middleware_go.Prelude.{
  ℕ, String, ◌≡◌, ◌≢◌, refl, sym, ap, ◌∙◌, inl, inr, true, false, List, [], ◌∷◌, some, arith, eqb,
  All, Bool-cases,
}
use enterprise_middleware_go.Text.{
  is_space, trim_left, keep_char, trim_right, trim_space, push_head, split, split_2, strip_prefix,
}

trim_left_idem : (s : String) → trim_left (trim_left s) ≡ trim_left s
unfolding trim_left
trim_left_idem String.[] = refl
trim_left_idem (String.◌∷◌ c s) = ground (arith, trim_left_idem s)

trim_right-keep_char :
    (c : Char) (s : String) → trim_right s ≡ s → trim_right (keep_char c s) ≡ keep_char c s
unfolding trim_right
trim_right-keep_char c String.[] h = elim (Bool-cases (is_space c)) [
  | inl space ↦ rw space refl
  | inr other ↦ rw other (rw other refl)
]
trim_right-keep_char c (String.◌∷◌ d s) h = rw h refl

trim_right_idem : (s : String) → trim_right (trim_right s) ≡ trim_right s
unfolding trim_right
trim_right_idem String.[] = refl
trim_right_idem (String.◌∷◌ c s) = trim_right-keep_char c (trim_right s) (trim_right_idem s)

trim_left-keep_char :
    (c : Char) (s : String)
    → trim_left (keep_char c s) ≡ elim (is_space c) [ true ↦ trim_left s | false ↦ keep_char c s ]
unfolding trim_left
trim_left-keep_char c String.[] = elim (Bool-cases (is_space c)) [
  | inl space ↦ rw space refl
  | inr other ↦ rw other (rw (other, trim_left) refl)
]
trim_left-keep_char c (String.◌∷◌ d s) = refl

trim_right-trim_left : (s : String) → trim_right (trim_left s) ≡ trim_left (trim_right s)
unfolding trim_left trim_right
trim_right-trim_left String.[] = refl
trim_right-trim_left (String.◌∷◌ c s) =
    let ih = trim_right-trim_left s in
    let kept = trim_left-keep_char c (trim_right s) in
    elim (Bool-cases (is_space c)) [
      | inl space ↦ ground (arith, kept)
      | inr other ↦ ground (arith, kept)
    ]

-- A text that is trimmed is trimmed already.
pub trim_space_idem : (s : String) → trim_space (trim_space s) ≡ trim_space s
unfolding trim_space
trim_space_idem s =
    ap trim_left (trim_right-trim_left (trim_right s))
    ∙ trim_left_idem (trim_right (trim_right s))
    ∙ ap trim_left (trim_right_idem s)

-- A text of spaces.
abbrev pub IsBlank : String → Type 0
IsBlank String.[] = Unit
IsBlank (String.◌∷◌ c s) = (is_space c ≡ true) × IsBlank s

keep_char-ne-nil : (c : Char) (s : String) → is_space c ≡ false → keep_char c s ≢ ""
keep_char-ne-nil c String.[] other h = absurd (cons-ne-nil c "" (rw other at h))
keep_char-ne-nil c (String.◌∷◌ d s) other h = cons-ne-nil c (String.◌∷◌ d s) h

trimmed-IsBlank : (s : String) → trim_right (trim_left s) ≡ "" → IsBlank s
unfolding trim_left trim_right
trimmed-IsBlank String.[] h = tt
trimmed-IsBlank (String.◌∷◌ c s) h = elim (Bool-cases (is_space c)) [
  | inl space ↦ (space, trimmed-IsBlank s (rw (space, trim_left) at h))
  | inr other ↦ absurd (keep_char-ne-nil c (trim_right s) other (rw (other, trim_left) at h))
]

pub trim_space-IsBlank : (s : String) → trim_space s ≡ "" → IsBlank s
unfolding trim_space
trim_space-IsBlank s h = trimmed-IsBlank s (trim_right-trim_left s ∙ h)

trim_left_of_IsBlank : (s : String) → IsBlank s → trim_left s ≡ ""
unfolding trim_left
trim_left_of_IsBlank String.[] _ = refl
trim_left_of_IsBlank (String.◌∷◌ c s) (space, h) = rw (space, trim_left) (trim_left_of_IsBlank s h)

pub trim_space_of_IsBlank : (s : String) → IsBlank s → trim_space s ≡ ""
unfolding trim_space trim_right
trim_space_of_IsBlank s h = sym (trim_right-trim_left s) ∙ ap trim_right (trim_left_of_IsBlank s h)

pub IsBlank-prefix : (s t : String) → IsBlank (String.◌++◌ s t) → IsBlank s
IsBlank-prefix String.[] t h = tt
IsBlank-prefix (String.◌∷◌ c s) t h =
    let (space, rest) = subst IsBlank (cons-append c s t) h in (space, IsBlank-prefix s t rest)

-- A text without the separator.
abbrev pub Lacks : ℕ → String → Type 0
Lacks sep String.[] = Unit
Lacks sep (String.◌∷◌ c s) = (eqb (code c) sep ≡ false) × Lacks sep s

Lacks-trim_left : (sep : ℕ) (s : String) → Lacks sep s → Lacks sep (trim_left s)
unfolding trim_left
Lacks-trim_left sep String.[] h = h
Lacks-trim_left sep (String.◌∷◌ c s) (p, h) = elim (Bool-cases (is_space c)) [
  | inl space ↦ rw (space, trim_left) (Lacks-trim_left sep s h)
  | inr other ↦ rw (other, trim_left) (p, h)
]

Lacks-keep_char :
    (sep : ℕ) (c : Char) (s : String)
    → eqb (code c) sep ≡ false
    → Lacks sep s
    → Lacks sep (keep_char c s)
Lacks-keep_char sep c String.[] p h = elim (Bool-cases (is_space c)) [
  | inl space ↦ rw space h
  | inr other ↦ rw other (p, h)
]
Lacks-keep_char sep c (String.◌∷◌ d s) p h = (p, h)

Lacks-trim_right : (sep : ℕ) (s : String) → Lacks sep s → Lacks sep (trim_right s)
unfolding trim_right
Lacks-trim_right sep String.[] h = h
Lacks-trim_right sep (String.◌∷◌ c s) (p, h) =
    Lacks-keep_char sep c (trim_right s) p (Lacks-trim_right sep s h)

pub Lacks-trim_space : (sep : ℕ) (s : String) → Lacks sep s → Lacks sep (trim_space s)
unfolding trim_space
Lacks-trim_space sep s h = Lacks-trim_left sep (trim_right s) (Lacks-trim_right sep s h)

All-push_head :
    (sep : ℕ) (c : Char) (ps : List String)
    → eqb (code c) sep ≡ false
    → All (Lacks sep) ps
    → All (Lacks sep) (push_head c ps)
All-push_head sep c [] p h = ((p, tt), tt)
All-push_head sep c (s ∷ ps) p (q, h) = ((p, q), h)

-- No part of a split has the separator.
pub split-Lacks : (sep : ℕ) (s : String) → All (Lacks sep) (split sep s)
unfolding split
split-Lacks sep String.[] = (tt, tt)
split-Lacks sep (String.◌∷◌ c s) = elim (Bool-cases (eqb (code c) sep)) [
  | inl here ↦ rw (here, split) (tt, split-Lacks sep s)
  | inr other ↦ rw (other, split) (All-push_head sep c (split sep s) other (split-Lacks sep s))
]

-- A text without the separator, at the end and before a separator.
pub split_one : (sep : ℕ) (s : String) → Lacks sep s → split sep s ≡ s ∷ []
unfolding split
split_one sep String.[] h = refl
split_one sep (String.◌∷◌ c s) (p, h) = let ih = split_one sep s h in rw (p, ih, split) refl

pub split-append :
    (sep : ℕ) (d : Char) (s rest : String)
    → eqb (code d) sep ≡ true
    → Lacks sep s
    → split sep (String.◌++◌ s (String.◌∷◌ d rest)) ≡ s ∷ split sep rest
unfolding split
split-append sep d String.[] rest at h = rw nil-append (rw (at, split) refl)
split-append sep d (String.◌∷◌ c s) rest at (p, h) =
    let ih = split-append sep d s rest at h in rw cons-append (rw (p, ih, split) refl)

pub split_2-append :
    (sep : ℕ) (d : Char) (s rest : String)
    → eqb (code d) sep ≡ true
    → Lacks sep s
    → split_2 sep (String.◌++◌ s (String.◌∷◌ d rest)) ≡ (s, some rest)
unfolding split_2
split_2-append sep d String.[] rest at h = rw nil-append (ground arith)
split_2-append sep d (String.◌∷◌ c s) rest at (p, h) =
    let ih = split_2-append sep d s rest at h in rw cons-append (ground arith)

pub strip_prefix-append : (p s : String) → strip_prefix p (String.◌++◌ p s) ≡ some s
unfolding strip_prefix
strip_prefix-append String.[] s = rw nil-append refl
strip_prefix-append (String.◌∷◌ c p) s =
    let ih = strip_prefix-append p s in rw cons-append (ground arith)

pub Lacks-append :
    (sep : ℕ) (s t : String) → Lacks sep s → Lacks sep t → Lacks sep (String.◌++◌ s t)
Lacks-append sep String.[] t _ g = rw nil-append g
Lacks-append sep (String.◌∷◌ c s) t (p, h) g = rw cons-append (p, Lacks-append sep s t h g)
