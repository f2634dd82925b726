-- ===== src/Service/Views/Projection.antt =====
-- The cache keys are distinct, and the projection keeps what a profile shows.
use Prim.Native.String.{◌++◌}
use text.Mathlib.TextLemmas.{append_cancel_left, append_assoc, cons-append, head-eq_of_cons-eq}
use Prim.Native.Char.{code}
use enterprise_middleware_go.Prelude.{String, ◌*◌, ◌/◌, ◌≡◌, ◌≢◌, sym, ap, ◌∙◌, arith}
use enterprise_middleware_go.Clock.{Time, second, to_unix, from_unix}
use enterprise_middleware_go.Repo.{Uuid, UuidLib}
use enterprise_middleware_go.Service.Views.{key_by_email, key_by_id}

pub key_by_email-injective : (e f : String) → key_by_email e ≡ key_by_email f → e ≡ f
unfolding key_by_email
key_by_email-injective e f h = append_cancel_left "user:email:" e f h

pub key_by_email-ne-key_by_id :
    (L : UuidLib) (e : String) (i : Uuid) → key_by_email e ≢ key_by_id L i
unfolding key_by_email key_by_id
key_by_email-ne-key_by_id L e i h =
    let same : "email:" ++ e ≡ "id:" ++ L.to_string i =
      append_cancel_left "user:" _ _
        (sym (append_assoc "user:" "email:" e) ∙ h ∙ append_assoc "user:" "id:" (L.to_string i)) in
    let heads =
      head-eq_of_cons-eq
        (sym (cons-append "e" "mail:" e) ∙ same ∙ cons-append "i" "d:" (L.to_string i)) in
    absurd (omega (arith, ap code heads))

pub key_by_id-injective : (L : UuidLib) (i j : Uuid) → key_by_id L i ≡ key_by_id L j → i ≡ j
unfolding key_by_id
key_by_id-injective L i j h =
    cc (L.parse-to_string i, L.parse-to_string j, ap L.parse (append_cancel_left "user:id:" _ _ h))

-- Unix and back is the time cut down to the second.
pub from_unix-to_unix : (t : Time) → from_unix (to_unix t) ≡ t / second * second
unfolding from_unix to_unix
from_unix-to_unix t = ground arith
