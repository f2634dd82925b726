-- ===== src/Sse/Reading.antt =====
-- What a client reads from the stream of the handler.
use Prim.Native.Char.{code}
use Prim.Native.String.{◌++◌}
use text.Mathlib.TextLemmas.{nil-append, cons-append, append_assoc}
use mathlib.Core.Path.{subst}
use enterprise_middleware_go.Prelude.{
  String, ◌≡◌, refl, sym, ap, ◌∙◌, Bool, true, false, List, [], ◌∷◌, Option, none, some, eqb, inl,
  inr, Bool-cases, if◌then◌else◌,
}
use enterprise_middleware_go.Text.{push_head, strip_prefix}
use enterprise_middleware_go.Text.Split.{strip_prefix-append}
use enterprise_middleware_go.Sse.Stream.{frame}

-- A text without a line feed and without a carriage return, the bytes 10 and 13.
abbrev pub IsLine : String → Type 0
IsLine String.[] = Unit
IsLine (String.◌∷◌ c s) = (eqb (code c) 10 ≡ false) × (eqb (code c) 13 ≡ false) × IsLine s

IsLine-append : (s t : String) → IsLine s → IsLine t → IsLine (s ++ t)
IsLine-append String.[] t _ h = rw nil-append h
IsLine-append (String.◌∷◌ c s) t (p, q, k) h = rw cons-append (p, q, IsLine-append s t k h)

-- The lines of a stream, each ended by a line feed, a carriage return or the two of them, and what
-- stands behind the last; the flag says that the character before was a carriage return.
unfoldable pub lines : Bool → String → List String
lines returned String.[] = "" ∷ []
lines returned (String.◌∷◌ c s) = elim (eqb (code c) 10) [
  | true ↦ elim returned [ true ↦ lines false s | false ↦ "" ∷ lines false s ]
  | false ↦ elim (eqb (code c) 13) [
    | true ↦ "" ∷ lines true s
    | false ↦ push_head c (lines false s)
  ]
]

-- One space goes from the front of a field's value.
abbrev pub field_value : String → String
field_value String.[] = ""
field_value (String.◌∷◌ c s) = if eqb (code c) b' ' then s else String.◌∷◌ c s

abbrev pub with_line : Option String → String → Option String
with_line none v = some v
with_line (some d) v = some (d ++ ("\n" ++ v))

abbrev is_empty : String → Bool
is_empty String.[] = true
is_empty (String.◌∷◌ _ _) = false

-- The client's side of the event stream format: a line "data:…" adds a line to the event, an empty
-- line ends it, and other lines are ignored; an event that is not ended is not read.
unfoldable pub read_lines : Option String → List String → List String
read_lines event [] = []
read_lines event (l ∷ []) = []
read_lines event (l ∷ k ∷ ls) =
    if is_empty l
    then elim event [ none ↦ read_lines none (k ∷ ls) | some d ↦ d ∷ read_lines none (k ∷ ls) ]
    else elim (strip_prefix "data:" l) [
      | none ↦ read_lines event (k ∷ ls)
      | some v ↦ read_lines (with_line event (field_value v)) (k ∷ ls)
    ]

-- The events of a stream.
unfoldable pub events_of : String → List String
unfolding read_lines lines
events_of s = read_lines none (lines false s)

-- There is a part behind the last line.
lines_cons :
    (returned : Bool) (s : String) → (l : String) × (ls : List String) × (lines returned s ≡ l ∷ ls)
unfolding lines
lines_cons returned String.[] = ("", [], refl)
lines_cons returned (String.◌∷◌ c s) =
    let (l, ls, e) = lines_cons false s in
    elim (Bool-cases (eqb (code c) 10)) [
      | inl feed ↦ elim (Bool-cases returned) [
        | inl after ↦ (l, ls, rw (feed, after, e, lines) refl)
        | inr fresh ↦ ("", l ∷ ls, rw (feed, fresh, e, lines) refl)
      ]
      | inr other ↦ elim (Bool-cases (eqb (code c) 13)) [
        | inl return ↦ ("", lines true s, rw (other, return, lines) refl)
        | inr plain ↦ (String.◌∷◌ c l, ls, rw (other, plain, e, lines) refl)
      ]
    ]

two_lines : (rest : String) → "\n\n" ++ rest ≡ String.◌∷◌ "\n" (String.◌∷◌ "\n" rest)
two_lines rest = rw (cons-append, cons-append, nil-append) refl

framed :
    (msg rest : String)
    → frame msg ++ rest ≡ ("data: " ++ msg) ++ String.◌∷◌ "\n" (String.◌∷◌ "\n" rest)
unfolding frame
framed msg rest =
    rw
      (
        append_assoc "data: " (msg ++ "\n\n") rest,
        append_assoc msg "\n\n" rest,
        two_lines rest,
        append_assoc "data: " msg (String.◌∷◌ "\n" (String.◌∷◌ "\n" rest)),
      )
      refl

-- A line that a line feed ends.
lines-append :
    (l rest : String) → IsLine l → lines false (l ++ String.◌∷◌ "\n" rest) ≡ l ∷ lines false rest
unfolding lines
lines-append String.[] rest _ = rw nil-append refl
lines-append (String.◌∷◌ c l) rest (p, q, h) =
    rw cons-append (rw (p, q, lines-append l rest h, lines) refl)

-- The lines of a text that starts with a line and an empty one.
lines-two_lines :
    (l rest : String)
    → IsLine l
    → lines false (l ++ String.◌∷◌ "\n" (String.◌∷◌ "\n" rest)) ≡ l ∷ "" ∷ lines false rest
unfolding lines
lines-two_lines l rest h = lines-append l (String.◌∷◌ "\n" rest) h

is_empty-data : (v : String) → is_empty ("data: " ++ v) ≡ false
is_empty-data v = rw cons-append refl

one_more : (v : String) → " " ++ v ≡ String.◌∷◌ " " v
one_more v = rw (cons-append, nil-append) refl

value-data : (v : String) → strip_prefix "data:" ("data: " ++ v) ≡ some (String.◌∷◌ " " v)
value-data v =
    rw (append_assoc "data:" " " v, one_more v) (strip_prefix-append "data:" (String.◌∷◌ " " v))

-- A line of data and an empty one are an event; a comment and an empty line are nothing.
read_lines-data :
    (v l : String) (ls : List String)
    → read_lines none (("data: " ++ v) ∷ "" ∷ l ∷ ls) ≡ v ∷ read_lines none (l ∷ ls)
unfolding read_lines
read_lines-data v l ls = rw (is_empty-data v, value-data v) refl

is_empty-comment : (v : String) → is_empty (":" ++ v) ≡ false
is_empty-comment v = rw cons-append refl

value-comment : (v : String) → strip_prefix "data:" (":" ++ v) ≡ none
unfolding strip_prefix
value-comment v = rw cons-append refl

read_lines-comment :
    (v l : String) (ls : List String)
    → read_lines none ((":" ++ v) ∷ "" ∷ l ∷ ls) ≡ read_lines none (l ∷ ls)
unfolding read_lines
read_lines-comment v l ls = rw (is_empty-comment v, value-comment v) refl

IsLine-data : (msg : String) → IsLine msg → IsLine ("data: " ++ msg)
IsLine-data msg h =
    IsLine-append "data: " msg
      (refl, refl, (refl, refl, (refl, refl, (refl, refl, (refl, refl, (refl, refl, tt)))))) h

lines-framed :
    (msg rest : String)
    → IsLine msg
    → lines false (frame msg ++ rest) ≡ ("data: " ++ msg) ∷ "" ∷ lines false rest
lines-framed msg rest h =
    rw (framed msg rest) (lines-two_lines ("data: " ++ msg) rest (IsLine-data msg h))

pub events-frame :
    (msg rest : String) → IsLine msg → events_of (frame msg ++ rest) ≡ msg ∷ events_of rest
unfolding events_of
events-frame msg rest h =
    let (l, ls, e) = lines_cons false rest in
    ap (read_lines none) (lines-framed msg rest h)
    ∙ subst (λ ps. read_lines none (("data: " ++ msg) ∷ "" ∷ ps) ≡ msg ∷ read_lines none ps) (sym e)
        (read_lines-data msg l ls)

-- A comment that two line feeds end.
lines-comment :
    (v rest : String)
    → IsLine v
    → lines false (((":" ++ v) ++ "\n\n") ++ rest) ≡ (":" ++ v) ∷ "" ∷ lines false rest
lines-comment v rest h =
    rw (append_assoc (":" ++ v) "\n\n" rest, two_lines rest)
      (lines-two_lines (":" ++ v) rest (IsLine-append ":" v (refl, refl, tt) h))

pub events-comment :
    (v rest : String) → IsLine v → events_of (((":" ++ v) ++ "\n\n") ++ rest) ≡ events_of rest
unfolding events_of
events-comment v rest h =
    let (l, ls, e) = lines_cons false rest in
    ap (read_lines none) (lines-comment v rest h)
    ∙ subst (λ ps. read_lines none ((":" ++ v) ∷ "" ∷ ps) ≡ read_lines none ps) (sym e)
        (read_lines-comment v l ls)
