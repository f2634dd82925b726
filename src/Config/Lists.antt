-- ===== src/Config/Lists.antt =====
-- The comma lists of the configuration, and the paths of its secrets.
use Prim.Native.String
use text.Mathlib.TextLemmas.{nil-append, cons-append}
use enterprise_middleware_go.Prelude.{
  String, ◌≡◌, ◌≢◌, refl, inl, inr, List, [], ◌∷◌, some, arith, All, Bool-cases, ◌==◌, eq_iff,
}
use enterprise_middleware_go.Text.{trim_space, split, after, strip_prefix}
use enterprise_middleware_go.Text.Split.{
  strip_prefix-append, Lacks, trim_space_idem, Lacks-trim_space, split-Lacks, split-append,
}
use enterprise_middleware_go.Config.{
  trimmed_parts, split_comma_list, extract_mount, trim_kv_data_prefix,
}

-- An element of a comma list: not empty, without a comma, and trimmed.
abbrev pub IsItem : String → Type 0
IsItem t = (t ≢ "") × Lacks b',' t × (trim_space t ≡ t)

trimmed_parts-IsItem : (ps : List String) → All (Lacks b',') ps → All IsItem (trimmed_parts ps)
unfolding trimmed_parts
trimmed_parts-IsItem [] _ = tt
trimmed_parts-IsItem (p ∷ ps) (h, hs) = elim (Bool-cases (trim_space p == "")) [
  | inl blank ↦ rw (blank, trimmed_parts) (trimmed_parts-IsItem ps hs)
  | inr kept ↦
      rw (kept, trimmed_parts)
        (
          (
            λ e. ground (arith, eq_iff (trim_space p) ""),
            Lacks-trim_space b',' p h,
            trim_space_idem p,
          ),
          trimmed_parts-IsItem ps hs,
        )
]

-- Each element of a comma list is trimmed, holds no comma, and is not empty.
pub split_comma_list-IsItem : (s : String) → All IsItem (split_comma_list s)
unfolding split_comma_list
split_comma_list-IsItem s = elim (Bool-cases (trim_space s == "")) [
  | inl blank ↦ rw (blank, split_comma_list) tt
  | inr kept ↦
      rw (kept, split_comma_list) (trimmed_parts-IsItem (split b',' s) (split-Lacks b',' s))
]

-- The items with a comma between them: how a list of brokers or hosts is written.
unfoldable pub join_comma : List String → String
join_comma [] = ""
join_comma (p ∷ []) = p
join_comma (p ∷ q ∷ ps) = String.◌++◌ p (String.◌∷◌ "," (join_comma (q ∷ ps)))

after_prefix :
    (pattern s rest : String) → strip_prefix pattern s ≡ some rest → after pattern s ≡ some rest
unfolding after
after_prefix pattern String.[] rest h = h
after_prefix pattern (String.◌∷◌ c s) rest h = ground arith

after-append :
    (m s rest : String)
    → Lacks b'/' m
    → strip_prefix "/data/" s ≡ some rest
    → after "/data/" (String.◌++◌ m s) ≡ some rest
unfolding after strip_prefix
after-append String.[] s rest _ h = rw nil-append (after_prefix "/data/" s rest h)
after-append (String.◌∷◌ c m) s rest (p, hm) h =
    let ih = after-append m s rest hm h in rw cons-append (ground arith)

extracted :
    (mount rest : String)
    → Lacks b'/' mount
    → extract_mount (String.◌++◌ mount (String.◌++◌ "/data/" rest)) ≡ mount
unfolding extract_mount
extracted mount rest h =
    let parted = split-append b'/' "/" mount (String.◌++◌ "data/" rest) refl h in
    rw (cons-append "/" "data/" rest, parted, extract_mount) refl

-- A path "<mount>/data/<rest>" whose mount has no slash is read as the mount and the rest.
pub kv_path :
    (mount rest : String)
    → Lacks b'/' mount
    → (extract_mount (String.◌++◌ mount (String.◌++◌ "/data/" rest)) ≡ mount)
      × (trim_kv_data_prefix (String.◌++◌ mount (String.◌++◌ "/data/" rest)) ≡ rest)
unfolding extract_mount trim_kv_data_prefix
kv_path mount rest h = (
  extracted mount rest h,
  rw
      (
        after-append mount (String.◌++◌ "/data/" rest) rest h (strip_prefix-append "/data/" rest),
        trim_kv_data_prefix,
      )
      refl,
)
