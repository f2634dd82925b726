-- ===== src/Commands/Triples.antt =====
-- What a step of a main keeps: where the property I of the process holds before, it holds after if
-- main goes on or panics, and F holds if main ends by Fatal.
use enterprise_middleware_go.Prelude.{String, Bool, true, false}
use enterprise_middleware_go.Commands.Process.{
  Process, Exited, fatal, panicked, running, Main, resume, ◌>>=◌, require,
}

abbrev pub Ends :
    {A : Type 0} → (Process → Type 0) → (Process → Type 0) → Exited A × Process → Type 0
Ends I F (fatal _, p) = F p
Ends I F (panicked, p) = I p
Ends I F (running _, p) = I p

unfoldable pub Keeps : {A : Type 0} → (Process → Type 0) → (Process → Type 0) → Main A → Type 0
Keeps I F m = (p : Process) → I p → Ends I F (m p)

pub resume-Ends :
    {A B : Type 0} (I F : Process → Type 0) (exited : Exited A) (p : Process) (k : A → Main B)
    → Ends I F (exited, p)
    → ((a : A) → Keeps I F (k a))
    → Ends I F (resume exited p k)
unfolding Keeps
resume-Ends I F (fatal msg) p k h _ = h
resume-Ends I F panicked p k h _ = h
resume-Ends I F (running a) p k h next = next a p h

pub bind-Keeps :
    {A B : Type 0} (I F : Process → Type 0) (m : Main A) (k : A → Main B)
    → Keeps I F m
    → ((a : A) → Keeps I F (k a))
    → Keeps I F (m >>= k)
unfolding Keeps
bind-Keeps I F m k first next p h =
    let (exited, p') = m p in resume-Ends I F exited p' k (first p h) next

module _ (I F : Process → Type 0) (fails : (p : Process) → I p → F p) where
  pub require-Keeps : (test : Bool) (msg : String) → Keeps I F (require test msg)
  unfolding Keeps
  require-Keeps true msg p h = h
  require-Keeps false msg p h = fails p h
