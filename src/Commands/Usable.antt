-- ===== src/Commands/Usable.antt =====
-- When Go can listen on the address that a program makes of its configuration.
use Prim.Native.Char.{Char, code}
use Prim.Native.String.{◌++◌}
use mathlib.Core.Path.{subst}
use text.Mathlib.TextLemmas.{nil-append}
use enterprise_middleware_go.Prelude.{
  ℕ, String, ◌≡◌, refl, sym, ap, ◌∙◌, true, false, not, inl, inr, Option, none, some, arith, eqb,
  ◌==◌, Bool-cases, Option-cases, if◌then◌else◌,
}
use enterprise_middleware_go.Text.{strip_prefix, has_prefix, contains, after, is_some}
use enterprise_middleware_go.Text.Split.{Lacks}
use enterprise_middleware_go.Commands.Listen.{
  last_cut, holds, split_host_port, normalize_listen_addr, bare_port, logger_listen_addr,
}
use enterprise_middleware_go.Commands.Addresses.{
  unbracketed, holds-Lacks, IsPlain, split_host_port-join_host_port, one_colon,
}

-- net.Listen splits the address.
abbrev pub IsAddress : String → Type 0
IsAddress s = is_some (split_host_port s) ≡ true

-- What stands behind the last separator has none, and no other character that the text lacks.
CutsTo : ℕ → ℕ → Option (String × String) → Type 0
CutsTo sep other none = Unit
CutsTo sep other (some (_, behind)) = Lacks sep behind × Lacks other behind

Uncut : ℕ → String → Option (String × String) → Type 0
Uncut sep s none = Lacks sep s
Uncut sep s (some _) = Unit

last_cut-Uncut : (sep : ℕ) (s : String) → Uncut sep s (last_cut sep s)
unfolding last_cut Uncut
last_cut-Uncut sep String.[] = tt
last_cut-Uncut sep (String.◌∷◌ c s) = go (last_cut sep s) (last_cut-Uncut sep s)
  where
    go :
        (later : Option (String × String))
        → Uncut sep s later
        → Uncut sep (String.◌∷◌ c s) (elim later [
          | some (before, behind) ↦ some (String.◌∷◌ c before, behind)
          | none ↦ if eqb (code c) sep then some ("", s) else none
        ])
    go (some _) _ = tt
    go none h = elim (Bool-cases (eqb (code c) sep)) [ inl p ↦ rw p tt | inr p ↦ rw p (p, h) ]

last_cut-CutsTo : (sep other : ℕ) (s : String) → Lacks other s → CutsTo sep other (last_cut sep s)
unfolding last_cut CutsTo Uncut
last_cut-CutsTo sep other String.[] _ = tt
last_cut-CutsTo sep other (String.◌∷◌ c s) (_, l) =
    go (last_cut sep s) (last_cut-Uncut sep s) (last_cut-CutsTo sep other s l)
  where
    go :
        (later : Option (String × String))
        → Uncut sep s later
        → CutsTo sep other later
        → CutsTo sep other (elim later [
          | some (before, behind) ↦ some (String.◌∷◌ c before, behind)
          | none ↦ if eqb (code c) sep then some ("", s) else none
        ])
    go (some (_, behind)) _ h = h
    go none h _ = elim (Bool-cases (eqb (code c) sep)) [ inl p ↦ rw p (h, l) | inr p ↦ rw p tt ]

contains-cons :
    (c : Char) (s : String)
    → eqb (code c) b':' ≡ false
    → contains (String.◌∷◌ c s) ":" ≡ contains s ":"
unfolding contains after strip_prefix
contains-cons c s p = rw (p, contains, after, strip_prefix) refl

contains-Lacks : (s : String) → contains s ":" ≡ false → Lacks b':' s
unfolding contains after strip_prefix
contains-Lacks String.[] _ = tt
contains-Lacks (String.◌∷◌ c s) e = elim (Bool-cases (eqb (code c) b':')) [
  | inl p ↦ ground (arith, e, p)
  | inr p ↦ (p, contains-Lacks s (sym (contains-cons c s p) ∙ e))
]

PlainPort : Option (String × String) → Type 0
PlainPort none = Unit
PlainPort (some (_, port)) = IsPlain port

-- The port of an address without brackets.
split_host_port-PlainPort :
    (s : String) → Lacks b'[' s → Lacks b']' s → PlainPort (split_host_port s)
unfolding split_host_port PlainPort CutsTo
split_host_port-PlainPort s l r = elim (Option-cases (last_cut b':' s)) [
  | inl e ↦ rw (e, split_host_port, PlainPort) tt
  | inr ((before, port), e) ↦
      let (colon, left) = subst (CutsTo b':' b'[') e (last_cut-CutsTo b':' b'[' s l) in
      let (_, right) = subst (CutsTo b':' b']') e (last_cut-CutsTo b':' b']' s r) in
      elim (Bool-cases (holds b':' before)) [
        | inl p ↦ rw (e, unbracketed s l, p, split_host_port, PlainPort) tt
        | inr p ↦
            rw
              (
                e,
                unbracketed s l,
                p,
                holds-Lacks b'[' s l,
                holds-Lacks b']' s r,
                split_host_port,
                PlainPort,
              )
              (colon, left, right)
      ]
]

IsAddress-plain : (port : String) → IsPlain port → IsAddress (":" ++ port)
IsAddress-plain port h = rw (one_colon port) (ap is_some (joined port h))
  where
    joined :
        (port : String) → IsPlain port → split_host_port (String.◌∷◌ ":" port) ≡ some ("", port)
    joined port h =
        subst (λ s. split_host_port s ≡ some ("", port)) (nil-append (String.◌∷◌ ":" port))
          (split_host_port-join_host_port "" port (tt, tt, tt) h)

-- The two ends of the functions, for an address that does not split.
bare-IsAddress :
    (cfg_addr def : String)
    → IsAddress def
    → Lacks b'[' cfg_addr
    → Lacks b']' cfg_addr
    → IsAddress (if not (contains cfg_addr ":") then ":" ++ cfg_addr else def)
bare-IsAddress cfg_addr def d l r = elim (Bool-cases (contains cfg_addr ":")) [
  | inl p ↦ rw p d
  | inr p ↦ rw p (IsAddress-plain cfg_addr (contains-Lacks cfg_addr p, l, r))
]

normalize-IsAddress :
    (cfg_addr def : String)
    → IsAddress def
    → Lacks b'[' cfg_addr
    → Lacks b']' cfg_addr
    → (has_prefix cfg_addr ":" ≡ true → IsAddress cfg_addr)
    → IsAddress (normalize_listen_addr cfg_addr def)
unfolding normalize_listen_addr
normalize-IsAddress cfg_addr def d l r front = elim (Bool-cases (cfg_addr == "")) [
  | inl p ↦ rw (p, normalize_listen_addr) d
  | inr p ↦ elim (Bool-cases (has_prefix cfg_addr ":")) [
    | inl q ↦ rw (p, q, normalize_listen_addr) (front q)
    | inr q ↦ elim (Option-cases (split_host_port cfg_addr)) [
      | inl e ↦ rw (p, q, e, normalize_listen_addr) (bare-IsAddress cfg_addr def d l r)
      | inr (parts, e) ↦ rw (p, q, e, normalize_listen_addr) (ap is_some e)
    ]
  ]
]

default-IsAddress : IsAddress ":50052"
unfolding split_host_port
default-IsAddress = refl

logger-IsAddress :
    (cfg_addr : String)
    → Lacks b'[' cfg_addr
    → Lacks b']' cfg_addr
    → (has_prefix cfg_addr ":" ≡ true → IsAddress cfg_addr)
    → IsAddress (logger_listen_addr cfg_addr)
unfolding logger_listen_addr bare_port PlainPort
logger-IsAddress cfg_addr l r front =
    let bare = bare-IsAddress cfg_addr ":50052" default-IsAddress l r in
    elim (Bool-cases (cfg_addr == "")) [
      | inl p ↦ rw (p, logger_listen_addr) default-IsAddress
      | inr p ↦ elim (Bool-cases (has_prefix cfg_addr ":")) [
        | inl q ↦ rw (p, q, logger_listen_addr) (front q)
        | inr q ↦ elim (Option-cases (split_host_port cfg_addr)) [
          | inl e ↦ rw (p, q, e, logger_listen_addr) bare
          | inr ((host, port), e) ↦
              let h : IsPlain port = subst PlainPort e (split_host_port-PlainPort cfg_addr l r) in
              elim (Bool-cases (port == "")) [
                | inl b ↦ rw (p, q, e, b, logger_listen_addr) bare
                | inr b ↦ rw (p, q, e, b, logger_listen_addr) (IsAddress-plain port h)
              ]
        ]
      ]
    ]

-- What the two services make of a configured address that has no bracket is an address that Go can
-- split, if the default is one and, where the configured address starts with a colon, so is that
-- address.
pub listen_addr-IsAddress :
    (cfg_addr def : String)
    → IsAddress def
    → Lacks b'[' cfg_addr
    → Lacks b']' cfg_addr
    → (has_prefix cfg_addr ":" ≡ true → IsAddress cfg_addr)
    → IsAddress (normalize_listen_addr cfg_addr def) × IsAddress (logger_listen_addr cfg_addr)
listen_addr-IsAddress cfg_addr def d l r front =
    (normalize-IsAddress cfg_addr def d l r front, logger-IsAddress cfg_addr l r front)
