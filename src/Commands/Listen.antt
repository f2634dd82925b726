-- ===== src/Commands/Listen.antt =====
-- The listen addresses of cmd/user-service/main.go and cmd/logger-service/main.go, and what they use
-- of Go's package net.
use Prim.Native.Char.{code}
use Prim.Native.String.{◌++◌}
use enterprise_middleware_go.Prelude.{
  ℕ, String, Bool, false, not, ◌&&◌, ◌||◌, Option, none, some, eqb, ◌==◌, if◌then◌else◌,
}
use enterprise_middleware_go.Text.{split_2, strip_prefix, has_prefix, contains}

-- What stands before and behind the last of an ASCII character.
unfoldable pub last_cut : ℕ → String → Option (String × String)
last_cut sep String.[] = none
last_cut sep (String.◌∷◌ c s) =
    let later = last_cut sep s in
    elim later [
      | some (before, behind) ↦ some (String.◌∷◌ c before, behind)
      | none ↦ if eqb (code c) sep then some ("", s) else none
    ]

-- strings.IndexByte(s, sep) >= 0
unfoldable pub holds : ℕ → String → Bool
holds sep String.[] = false
holds sep (String.◌∷◌ c s) = eqb (code c) sep || holds sep s

-- net.SplitHostPort behind a '[', of which this text is the rest
unfoldable pub split_bracketed : String → String → Option (String × String)
unfolding split_2 holds
split_bracketed rest port =
    let (host, behind) = split_2 b']' rest in
    elim behind [
      | none ↦ none
      | some tail ↦
          if (tail == ":" ++ port) && not (holds b'[' rest) && not (holds b']' tail)
          then some (host, port)
          else none
    ]

-- net.SplitHostPort, with its errors as one.
unfoldable pub split_host_port : String → Option (String × String)
unfolding last_cut holds split_bracketed strip_prefix
split_host_port s = elim (last_cut b':' s) [
  | none ↦ none
  | some (before, port) ↦ elim (strip_prefix "[" s) [
    | some rest ↦ split_bracketed rest port
    | none ↦ if holds b':' before || holds b'[' s || holds b']' s then none else some (before, port)
  ]
]

-- normalizeListenAddr of user-service
unfoldable pub normalize_listen_addr : String → String → String
unfolding split_host_port has_prefix contains
normalize_listen_addr cfg_addr def =
    if cfg_addr == ""
    then def
    else if has_prefix cfg_addr ":"
    then cfg_addr
    else elim (split_host_port cfg_addr) [
      | some _ ↦ cfg_addr
      | none ↦ if not (contains cfg_addr ":") then ":" ++ cfg_addr else def
    ]

-- The end of normalizeListenAddr of logger-service.
unfoldable pub bare_port : String → String
unfolding contains
bare_port cfg_addr = if not (contains cfg_addr ":") then ":" ++ cfg_addr else ":50052"

-- normalizeListenAddr of logger-service
unfoldable pub logger_listen_addr : String → String
unfolding split_host_port has_prefix bare_port
logger_listen_addr cfg_addr =
    if cfg_addr == ""
    then ":50052"
    else if has_prefix cfg_addr ":"
    then cfg_addr
    else elim (split_host_port cfg_addr) [
      | some (_, port) ↦ if not (port == "") then ":" ++ port else bare_port cfg_addr
      | none ↦ bare_port cfg_addr
    ]
