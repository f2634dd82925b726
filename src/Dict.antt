-- ===== src/Dict.antt =====
-- A Go `map[string]V`. The representation is private: other modules have the laws of `dict_laws`.
-- A key stands once in a map that these operations build, so `size` is Go's `len`.
-- No code of the repository depends on the order of iteration.
mod Entries
pub use Entries.{keep}
use Entries.{
  Bindings, vacant, find, bind, drop_key, sift, count, find-bind, find-drop_key, find-sift,
  count-bind, count-sift-le,
}
use enterprise_middleware_go.Prelude.{
  ℕ, suc, ◌≤◌, String, ◌≡◌, refl, Bool, Option, none, some, ◌==◌, if◌then◌else◌,
}

pub record Dict {ℓ} (V : Type ℓ) : Type ℓ where
  bindings : Bindings V

module _ {ℓ} {V : Type ℓ} where
  -- make(map[string]V)
  unfoldable pub empty : Dict V
  empty = record { bindings = vacant }

  -- v, ok := m[k]
  unfoldable pub get : Dict V → String → Option V
  unfolding find
  get m = find m.bindings

  -- m[k] = v
  unfoldable pub put : Dict V → String → V → Dict V
  unfolding bind
  put m key value = record { bindings = bind m.bindings key value }

  -- delete(m, k)
  unfoldable pub remove : Dict V → String → Dict V
  unfolding drop_key
  remove m gone = record { bindings = drop_key gone m.bindings }

  -- for k, v := range m { if !test(v) { delete(m, k) } }
  unfoldable pub retain : (V → Bool) → Dict V → Dict V
  unfolding sift
  retain test m = record { bindings = sift test m.bindings }

  -- len(m)
  unfoldable pub size : Dict V → ℕ
  unfolding count
  size m = count m.bindings

  pub get-empty : (asked : String) → get empty asked ≡ none
  unfolding get empty
  get-empty asked = refl

  pub get-put :
      (m : Dict V) (key asked : String) (value : V)
      → get (put m key value) asked ≡ (if key == asked then some value else get m asked)
  get-put m key asked value = unfold get put in find-bind m.bindings key asked value

  pub get-remove :
      (m : Dict V) (gone asked : String)
      → get (remove m gone) asked ≡ (if gone == asked then none else get m asked)
  get-remove m gone asked = unfold get remove in find-drop_key m.bindings gone asked

  pub get-retain :
      (test : V → Bool) (m : Dict V) (asked : String)
      → get (retain test m) asked ≡ keep test (get m asked)
  get-retain test m asked = unfold get retain in find-sift test m.bindings asked

  pub size-put :
      (m : Dict V) (key : String) (value : V)
      → size (put m key value) ≡ elim (get m key) [ none ↦ suc (size m) | some _ ↦ size m ]
  size-put m key value = unfold size put get in count-bind m.bindings key value

  pub size-retain-le : (test : V → Bool) (m : Dict V) → size (retain test m) ≤ size m
  size-retain-le test m = unfold size retain in count-sift-le test m.bindings

pub ruleset dict_laws = (get-empty, get-put, get-remove, get-retain)
