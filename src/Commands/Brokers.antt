-- ===== src/Commands/Brokers.antt =====
-- The brokers of the gateway are those that the services would read from the same text.
use Prim.Native.Char.{Char, code}
use enterprise_middleware_go.Prelude.{
  String, eqb, eq_iff, arith, ◌≡◌, refl, sym, ap, ◌∙◌, inl, inr, true, false, List, [], ◌∷◌, ◌==◌,
  Bool-cases, if◌then◌else◌,
}
use enterprise_middleware_go.Dict.{Dict}
use enterprise_middleware_go.Text.{is_space, trim_space, split}
use enterprise_middleware_go.Text.Split.{IsBlank, trim_space-IsBlank, Lacks, split_one}
use enterprise_middleware_go.Config.{split_comma_list, trimmed_parts}
use enterprise_middleware_go.Commands.GatewaySettings.{
  Flags, get_env, nonblank_parts, split_and_trim_or_default, parse_brokers, brokers_or_default,
  load_config,
}

nonblank_parts-trimmed_parts : (parts : List String) → nonblank_parts parts ≡ trimmed_parts parts
unfolding nonblank_parts trimmed_parts
nonblank_parts-trimmed_parts [] = refl
nonblank_parts-trimmed_parts (p ∷ parts) = rw (nonblank_parts-trimmed_parts parts) refl

comma_of_space : (c : Char) → is_space c ≡ true → eqb (code c) b',' ≡ false
unfolding is_space
comma_of_space c h = ground arith

IsBlank-Lacks : (s : String) → IsBlank s → Lacks b',' s
IsBlank-Lacks String.[] _ = tt
IsBlank-Lacks (String.◌∷◌ c s) (space, h) = (comma_of_space c space, IsBlank-Lacks s h)

-- A blank text has no parts.
blank_parts : (s : String) → (trim_space s == "") ≡ true → nonblank_parts (split b',' s) ≡ []
unfolding nonblank_parts
blank_parts s blank =
    let e = (eq_iff (trim_space s) "").0 blank in
    rw (split_one b',' s (IsBlank-Lacks s (trim_space-IsBlank s e)), blank, nonblank_parts) refl

-- A text is split in the same way by splitAndTrimOrDefault and by splitCommaList.
parts_of : (s : String) → nonblank_parts (split b',' s) ≡ split_comma_list s
unfolding split_comma_list
parts_of s = elim (Bool-cases (trim_space s == "")) [
  | inl blank ↦ rw (blank, split_comma_list) (blank_parts s blank)
  | inr other ↦ rw (other, split_comma_list) (nonblank_parts-trimmed_parts (split b',' s))
]

-- The text that counts.
abbrev pub text_or : String → String → String
text_or input def = if trim_space input == "" then def else input

split_and_trim_or_default-split_comma_list :
    (input def : String)
    → split_and_trim_or_default input def ≡ split_comma_list (text_or input def)
unfolding split_and_trim_or_default
split_and_trim_or_default-split_comma_list input def = elim (Bool-cases (trim_space input == "")) [
  | inl blank ↦ rw (blank, split_and_trim_or_default) (parts_of def)
  | inr other ↦ rw (other, split_and_trim_or_default) (parts_of input)
]

-- The last text that -brokers gave, or the default where that is blank or there is none; then the
-- default, where no broker is left of it.
abbrev pub last_or : String → String → List String → String
last_or text def [] = text
last_or text def (s ∷ later) = last_or (text_or s def) def later

parse_brokers-last_or :
    (text def : String) (given : List String)
    → parse_brokers (split_comma_list text) def given ≡ split_comma_list (last_or text def given)
unfolding parse_brokers
parse_brokers-last_or text def [] = refl
parse_brokers-last_or text def (s ∷ later) =
    ap (λ brokers. parse_brokers brokers def later)
      (split_and_trim_or_default-split_comma_list s def)
    ∙ parse_brokers-last_or (text_or s def) def later

default_twice : (def : String) → text_or def def ≡ def
default_twice def = elim (Bool-cases (trim_space def == "")) [
  | inl e ↦ rw e refl
  | inr e ↦ rw e refl
]

abbrev pub list_or : List String → List String → List String
list_or [] def = def
list_or (b ∷ brokers) def = b ∷ brokers

brokers_or_default-list_or :
    (brokers : List String) (def : String)
    → brokers_or_default brokers def ≡ list_or brokers (split_comma_list def)
unfolding brokers_or_default
brokers_or_default-list_or [] def =
    split_and_trim_or_default-split_comma_list def def ∙ ap split_comma_list (default_twice def)
brokers_or_default-list_or (b ∷ brokers) def = refl

nothing : split_comma_list "" ≡ []
unfolding split_comma_list trim_space
nothing = refl

-- The gateway takes the brokers that the services' splitCommaList reads from the text of the last
-- -brokers flag, a blank text standing for the value of KAFKA_BROKERS, or kafka:9092 if that is not
-- set or empty. Where that list is empty, or there is no such flag, it takes the brokers of this
-- value or default.
pub load_config-brokers :
    (environ : Dict String) (flags : Flags)
    → (load_config environ flags).brokers
      ≡ list_or
          (split_comma_list
            (last_or "" (get_env environ "KAFKA_BROKERS" "kafka:9092") flags.brokers))
          (split_comma_list (get_env environ "KAFKA_BROKERS" "kafka:9092"))
unfolding load_config
load_config-brokers environ flags =
    let def = get_env environ "KAFKA_BROKERS" "kafka:9092" in
    ap (λ brokers. brokers_or_default (parse_brokers brokers def flags.brokers) def) (sym nothing)
    ∙ ap (λ brokers. brokers_or_default brokers def) (parse_brokers-last_or "" def flags.brokers)
    ∙ brokers_or_default-list_or (split_comma_list (last_or "" def flags.brokers)) def
