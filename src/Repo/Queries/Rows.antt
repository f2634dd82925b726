-- ===== src/Repo/Queries/Rows.antt =====
-- Rows of a table: what an insertion, an update and a deletion do to a search and to a uniqueness.
use enterprise_middleware_go.Prelude.{
  ◌≡◌, ◌∙◌, refl, Bool, false, ◌||◌, List, [], ◌∷◌, ◌++◌, map, Option, none, some, any, arith,
  if◌then◌else◌, inl, inr, Bool-cases,
}
use enterprise_middleware_go.Repo.Queries.{find, filter}

-- No row stands in the relation to a later one.
abbrev pub Distinct : {A : Type 0} → (A → A → Bool) → List A → Type 0
Distinct r [] = Unit
Distinct r (x ∷ xs) = (any (r x) xs ≡ false) × Distinct r xs

abbrev pub map_option : {A B : Type 0} → (A → B) → Option A → Option B
map_option f none = none
map_option f (some a) = some (f a)

module _ {A : Type 0} (p : A → Bool) where
  pub find-append :
      (xs : List A) (x : A)
      → find p (xs ++ x ∷ [])
        ≡ elim (find p xs) [ some y ↦ some y | none ↦ if p x then some x else none ]
  unfolding find
  find-append [] x = refl
  find-append (y ∷ xs) x = elim (Bool-cases (p y)) [
    | inl h ↦ ground arith
    | inr h ↦ ground (arith, find-append xs x)
  ]

  pub find-any : (xs : List A) → any p xs ≡ false → find p xs ≡ none
  unfolding find
  find-any [] _ = refl
  find-any (y ∷ xs) h = elim (Bool-cases (p y)) [
    | inl q ↦ absurd (ground arith)
    | inr q ↦ ground (arith, find-any xs)
  ]

  pub any-append : (xs : List A) (x : A) → any p (xs ++ x ∷ []) ≡ any p xs || p x
  any-append [] x = ground arith
  any-append (y ∷ xs) x = ground (arith, any-append xs x)

  -- A condition that the update does not touch.
  module _ (f : A → A) (keeps : (x : A) → p (f x) ≡ p x) where
    pub find-map : (xs : List A) → find p (map f xs) ≡ map_option f (find p xs)
    unfolding find
    find-map [] = refl
    find-map (y ∷ xs) = elim (Bool-cases (p y)) [
      | inl q ↦ ground (arith, keeps y)
      | inr q ↦ ground (arith, keeps y, find-map xs)
    ]

  pub any-filter : (q : A → Bool) (xs : List A) → any p xs ≡ false → any p (filter q xs) ≡ false
  unfolding filter
  any-filter q [] _ = refl
  any-filter q (y ∷ xs) h = elim (Bool-cases (q y)) [
    | inl k ↦ ground (arith, any-filter q xs)
    | inr k ↦ ground (arith, any-filter q xs)
  ]

pub any-map :
    {A : Type 0} (p q : A → Bool) (f : A → A)
    → ((x : A) → q (f x) ≡ p x)
    → (xs : List A) → any q (map f xs) ≡ any p xs
any-map p q f keeps [] = refl
any-map p q f keeps (y ∷ xs) = ground (arith, keeps y, any-map p q f keeps xs)

module _ {A : Type 0} (r : A → A → Bool) where
  pub Distinct-append :
      (xs : List A) (x : A)
      → Distinct r xs
      → any (λ y. r y x) xs ≡ false
      → Distinct r (xs ++ x ∷ [])
  Distinct-append [] x _ _ = (refl, tt)
  Distinct-append (y ∷ xs) x (d, ds) h =
      (ground (arith, any-append (r y) xs x), Distinct-append xs x ds (ground arith))

  pub Distinct-map :
      (f : A → A)
      → ((x y : A) → r (f x) (f y) ≡ r x y)
      → (xs : List A) → Distinct r xs
      → Distinct r (map f xs)
  Distinct-map f keeps [] _ = tt
  Distinct-map f keeps (y ∷ xs) (d, ds) =
      (any-map (r y) (r (f y)) f (keeps y) xs ∙ d, Distinct-map f keeps xs ds)

  pub Distinct-filter : (q : A → Bool) (xs : List A) → Distinct r xs → Distinct r (filter q xs)
  unfolding filter
  Distinct-filter q [] _ = tt
  Distinct-filter q (y ∷ xs) (d, ds) = elim (Bool-cases (q y)) [
    | inl k ↦ rw (k, filter) (any-filter (r y) q xs d, Distinct-filter q xs ds)
    | inr k ↦ rw (k, filter) (Distinct-filter q xs ds)
  ]
