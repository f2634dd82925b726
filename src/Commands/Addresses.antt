-- ===== src/Commands/Addresses.antt =====
-- What the programs make of the listen address of their configuration.
use Prim.Native.Char.{Char, code}
use Prim.Native.String.{◌++◌}
use mathlib.Core.Path.{subst}
use text.Mathlib.TextLemmas.{nil-append, cons-append}
use enterprise_middleware_go.Prelude.{
  ℕ, String, ◌≡◌, refl, ◌∙◌, true, false, inl, inr, none, some, arith, eqb, ◌==◌, eq_of_ne,
  Bool-cases,
}
use enterprise_middleware_go.Text.{strip_prefix, has_prefix}
use enterprise_middleware_go.Text.Split.{Lacks, Lacks-append}
use enterprise_middleware_go.Commands.Listen.{
  last_cut, holds, split_host_port, normalize_listen_addr, logger_listen_addr,
}

last_cut-none : (sep : ℕ) (s : String) → Lacks sep s → last_cut sep s ≡ none
unfolding last_cut
last_cut-none sep String.[] _ = refl
last_cut-none sep (String.◌∷◌ c s) (p, h) = rw (last_cut-none sep s h, p) refl

last_cut-append :
    (sep : ℕ) (d : Char) (s t : String)
    → eqb (code d) sep ≡ true
    → Lacks sep t
    → last_cut sep (s ++ String.◌∷◌ d t) ≡ some (s, t)
unfolding last_cut
last_cut-append sep d String.[] t at h = rw nil-append (rw (last_cut-none sep t h, at) refl)
last_cut-append sep d (String.◌∷◌ c s) t at h =
    let ih = last_cut-append sep d s t at h in rw (cons-append, ih, last_cut) refl

pub holds-Lacks : (sep : ℕ) (s : String) → Lacks sep s → holds sep s ≡ false
unfolding holds
holds-Lacks sep String.[] _ = refl
holds-Lacks sep (String.◌∷◌ c s) (p, h) = let ih = holds-Lacks sep s h in ground arith

-- A text without brackets is not empty in front of its colon.
pub unbracketed : (s : String) → Lacks b'[' s → strip_prefix "[" s ≡ none
unfolding strip_prefix
unbracketed String.[] _ = refl
unbracketed (String.◌∷◌ c s) (p, _) = rw p refl

-- A part of an address: no colon and no bracket.
abbrev pub IsPlain : String → Type 0
IsPlain s = Lacks b':' s × Lacks b'[' s × Lacks b']' s

abbrev pub join_host_port : String → String → String
join_host_port host port = host ++ String.◌∷◌ ":" port

pub split_host_port-join_host_port :
    (host port : String)
    → IsPlain host
    → IsPlain port
    → split_host_port (join_host_port host port) ≡ some (host, port)
unfolding split_host_port
split_host_port-join_host_port host port (h, l, r) (h', l', r') =
    let left = Lacks-append b'[' host (String.◌∷◌ ":" port) l (refl, l') in
    let right = Lacks-append b']' host (String.◌∷◌ ":" port) r (refl, r') in
    rw
      (
        last_cut-append b':' ":" host port refl h',
        unbracketed (join_host_port host port) left,
        holds-Lacks b':' host h,
        holds-Lacks b'[' (join_host_port host port) left,
        holds-Lacks b']' (join_host_port host port) right,
        split_host_port,
        last_cut,
      )
      refl

IsFilled : String → Type 0
IsFilled String.[] = ⊥
IsFilled (String.◌∷◌ _ _) = Unit

not_empty : (c : Char) (s : String) → (String.◌∷◌ c s == "") ≡ false
unfolding IsFilled
not_empty c s = eq_of_ne (String.◌∷◌ c s) "" (λ e. subst IsFilled e tt)

pub has_prefix-colon : (c : Char) (s : String) → has_prefix (String.◌∷◌ c s) ":" ≡ eqb (code c) b':'
unfolding has_prefix strip_prefix
has_prefix-colon c s = elim (Bool-cases (eqb (code c) b':')) [
  | inl p ↦ rw p refl
  | inr p ↦ rw p refl
]

-- A text with a colon at its front is taken as it is.
pub colon_taken :
    (port def : String)
    → (normalize_listen_addr (String.◌∷◌ ":" port) def ≡ String.◌∷◌ ":" port)
      × (logger_listen_addr (String.◌∷◌ ":" port) ≡ String.◌∷◌ ":" port)
unfolding normalize_listen_addr logger_listen_addr
colon_taken port def = rw (not_empty ":" port) (refl, refl)

pub one_colon : (port : String) → ":" ++ port ≡ String.◌∷◌ ":" port
one_colon port = rw (cons-append, nil-append) refl

-- What becomes of an address that splits.
normalize_split :
    (s def host port : String)
    → (s == "") ≡ false
    → split_host_port s ≡ some (host, port)
    → normalize_listen_addr s def ≡ s
unfolding normalize_listen_addr
normalize_split s def host port filled e = elim (Bool-cases (has_prefix s ":")) [
  | inl front ↦ rw (filled, front, normalize_listen_addr) refl
  | inr other ↦ rw (filled, other, e, normalize_listen_addr) refl
]

logger_split :
    (s host port : String)
    → (s == "") ≡ false
    → has_prefix s ":" ≡ false
    → split_host_port s ≡ some (host, port)
    → (port == "") ≡ false
    → logger_listen_addr s ≡ ":" ++ port
unfolding logger_listen_addr
logger_split s host port filled other e some_port =
    rw (filled, other, e, some_port, logger_listen_addr) refl

-- An address "host:port", whose host and port have no colon and no bracket and whose port is not
-- empty, is what user-service listens on; logger-service drops the host and listens on ":port".
pub listen_addr-join_host_port :
    (host port def : String)
    → IsPlain host
    → IsPlain port
    → (port == "") ≡ false
    → (normalize_listen_addr (join_host_port host port) def ≡ join_host_port host port)
      × (logger_listen_addr (join_host_port host port) ≡ ":" ++ port)
unfolding normalize_listen_addr logger_listen_addr
listen_addr-join_host_port String.[] port def h h' filled =
    rw (nil-append, one_colon port) (colon_taken port def)
listen_addr-join_host_port (String.◌∷◌ c host) port def ((p, h), l, r) h' filled =
    let e = split_host_port-join_host_port (String.◌∷◌ c host) port ((p, h), l, r) h' in
    let s = join_host_port (String.◌∷◌ c host) port in
    let some_char : (s == "") ≡ false =
      rw cons-append (not_empty c (host ++ String.◌∷◌ ":" port)) in
    let other : has_prefix s ":" ≡ false =
      rw cons-append (has_prefix-colon c (host ++ String.◌∷◌ ":" port) ∙ p) in
    (
      normalize_split s def (String.◌∷◌ c host) port some_char e,
      logger_split s (String.◌∷◌ c host) port some_char other e filled,
    )
