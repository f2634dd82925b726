-- ===== src/Dict/Entries.antt =====
-- The representation of a map: a chain of bindings, in no particular order.
use enterprise_middleware_go.Prelude.{
  ℕ, zero, suc, ◌≤◌, String, ◌≡◌, refl, Bool, Option, none, some, arith, ◌==◌, eq_iff,
  if◌then◌else◌,
}

pub data Bindings {ℓ} (V : Type ℓ) : Type ℓ where
  vacant : Bindings V
  bound : String → V → Bindings V → Bindings V

-- A value is kept if it passes the test.
abbrev pub keep {ℓ} : {V : Type ℓ} → (V → Bool) → Option V → Option V
keep test none = none
keep test (some value) = if test value then some value else none

module _ {ℓ} {V : Type ℓ} where
  unfoldable pub count : Bindings V → ℕ
  count vacant = zero
  count (bound _ _ more) = suc (count more)

  unfoldable pub find : Bindings V → String → Option V
  find vacant asked = none
  find (bound key value more) asked = if asked == key then some value else find more asked

  unfoldable pub drop_key : String → Bindings V → Bindings V
  drop_key gone vacant = vacant
  drop_key gone (bound key value more) =
      let dropped = drop_key gone more in if gone == key then dropped else bound key value dropped

  unfoldable pub bind : Bindings V → String → V → Bindings V
  bind vacant key value = bound key value vacant
  bind (bound first old more) key value =
      let behind = bind more key value in
      if key == first then bound first value more else bound first old behind

  -- The first binding of a key decides whether the key stays.
  unfoldable pub sift : (V → Bool) → Bindings V → Bindings V
  unfolding drop_key
  sift test vacant = vacant
  sift test (bound key value more) =
      let others = drop_key key (sift test more) in
      if test value then bound key value others else others

  pub find-bind :
      (chain : Bindings V) (key asked : String) (value : V)
      → find (bind chain key value) asked ≡ (if key == asked then some value else find chain asked)
  unfolding find bind
  find-bind vacant key asked value = ground (arith, eq_iff asked key, eq_iff key asked)
  find-bind (bound first old more) key asked value = ground (
    arith,
    find-bind more key asked value,
    eq_iff key first,
    eq_iff asked first,
    eq_iff key asked,
  )

  pub find-drop_key :
      (chain : Bindings V) (gone asked : String)
      → find (drop_key gone chain) asked ≡ (if gone == asked then none else find chain asked)
  unfolding find drop_key
  find-drop_key vacant gone asked = ground arith
  find-drop_key (bound key value more) gone asked =
      ground
        (arith, eq_iff gone key, find-drop_key more gone asked, eq_iff asked key, eq_iff gone asked)

  pub find-sift :
      (test : V → Bool) (chain : Bindings V) (asked : String)
      → find (sift test chain) asked ≡ keep test (find chain asked)
  unfolding find sift
  find-sift test vacant asked = refl
  find-sift test (bound key value more) asked = ground (
    arith,
    eq_iff asked key,
    eq_iff key asked,
    find-drop_key (sift test more) key asked,
    find-sift test more asked,
  )

  pub count-bind :
      (chain : Bindings V) (key : String) (value : V)
      → count (bind chain key value)
        ≡ elim (find chain key) [ none ↦ suc (count chain) | some _ ↦ count chain ]
  unfolding count find bind
  count-bind vacant key value = refl
  count-bind (bound first old more) key value = ground (arith, count-bind more key value)

  count-drop_key-le :
      (gone : String) (chain : Bindings V) → count (drop_key gone chain) ≤ count chain
  unfolding count drop_key
  count-drop_key-le gone vacant = omega arith
  count-drop_key-le gone (bound key value more) = ground (arith, count-drop_key-le gone more)

  pub count-sift-le : (test : V → Bool) (chain : Bindings V) → count (sift test chain) ≤ count chain
  unfolding count sift
  count-sift-le test vacant = omega arith
  count-sift-le test (bound key value more) =
      ground (arith, count-drop_key-le key (sift test more), count-sift-le test more)
