-- ===== src/Repo/Postgres/Example.antt =====
-- A citext that ignores the case of ASCII letters.

use enterprise_middleware_go.Prelude.{String, ◌≡◌, refl, true, arith}
use enterprise_middleware_go.Text.{equal_fold}
use enterprise_middleware_go.Repo.Queries.{Citext}

pub folds_itself : (a : String) → equal_fold a a ≡ true
unfolding equal_fold
folds_itself String.[] = refl
folds_itself (String.◌∷◌ c s) = ground (arith, folds_itself s)

pub folds_back : (a b : String) → equal_fold a b ≡ true → equal_fold b a ≡ true
unfolding equal_fold
folds_back String.[] String.[] h = refl
folds_back String.[] (String.◌∷◌ d t) h = absurd (ground (arith, h))
folds_back (String.◌∷◌ c s) String.[] h = absurd (ground (arith, h))
folds_back (String.◌∷◌ c s) (String.◌∷◌ d t) h = ground (arith, folds_back s t)

pub folds_on :
    (a b c : String) → equal_fold a b ≡ true → equal_fold b c ≡ true → equal_fold a c ≡ true
unfolding equal_fold
folds_on String.[] String.[] c h k = k
folds_on String.[] (String.◌∷◌ d t) c h k = absurd (ground (arith, h))
folds_on (String.◌∷◌ c s) String.[] _ h k = absurd (ground (arith, h))
folds_on (String.◌∷◌ c s) (String.◌∷◌ d t) String.[] h k = absurd (ground (arith, k))
folds_on (String.◌∷◌ c s) (String.◌∷◌ d t) (String.◌∷◌ e u) h k = ground (arith, folds_on s t u)

abbrev pub folding : Citext
folding = record {
  same = equal_fold;
  reflexive = folds_itself;
  symmetric = folds_back;
  transitive = folds_on;
}
