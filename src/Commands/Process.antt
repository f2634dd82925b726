-- ===== src/Commands/Process.antt =====
-- A run of a program's main: the files on its disk, what it has opened, and what it has deferred.
-- logger.Fatal ends the process at once, with no deferred call; a panic and a return make them.
use enterprise_middleware_go.Prelude.{
  String, Bool, true, false, List, [], ◌∷◌, Option, none, some, ◌==◌, if◌then◌else◌,
}

-- The files by their paths.
abbrev pub FileSystem : Type 0
FileSystem = List (String × String)

unfoldable pub read_file : String → FileSystem → Option String
read_file path [] = none
read_file path ((p, text) ∷ files) =
    let behind = read_file path files in if p == path then some text else behind

-- os.Remove
unfoldable pub remove_file : String → FileSystem → FileSystem
remove_file path [] = []
remove_file path ((p, text) ∷ files) =
    let behind = remove_file path files in if p == path then files else (p, text) ∷ behind

pub data Resource : Type 0 where
  postgres_pool cassandra_session kafka_producer redis_client : Resource

abbrev pub same_resource : Resource → Resource → Bool
same_resource postgres_pool postgres_pool = true
same_resource cassandra_session cassandra_session = true
same_resource kafka_producer kafka_producer = true
same_resource redis_client redis_client = true
same_resource _ _ = false

unfoldable pub close_resource : Resource → List Resource → List Resource
close_resource r [] = []
close_resource r (q ∷ opened) =
    let behind = close_resource r opened in if same_resource q r then opened else q ∷ behind

pub data Deferred : Type 0 where
  removal : String → Deferred
  closing : Resource → Deferred

pub record Process : Type 0 where
  pub files : FileSystem
  pub opened : List Resource
  pub deferred : List Deferred

-- The deferred calls, the latest first.
unfoldable pub run_deferred : List Deferred → FileSystem → List Resource → Process
unfolding remove_file close_resource
run_deferred [] files opened = record { files = files; opened = opened; deferred = [] }
run_deferred (removal path ∷ ds) files opened = run_deferred ds (remove_file path files) opened
run_deferred (closing r ∷ ds) files opened = run_deferred ds files (close_resource r opened)

abbrev pub returned : Process → Process
returned p = run_deferred p.deferred p.files p.opened

pub data Exited (A : Type 0) : Type 0 where
  fatal : String → Exited A
  panicked : Exited A
  running : A → Exited A

abbrev pub Main : Type 0 → Type 0
Main A = Process → Exited A × Process

abbrev pub resume : {A B : Type 0} → Exited A → Process → (A → Main B) → Exited B × Process
resume (fatal msg) p k = (fatal msg, p)
resume panicked p k = (panicked, p)
resume (running a) p k = k a p

infixl 5 ◌>>=◌ ◌>>◌
abbrev pub ◌>>=◌ : {A B : Type 0} → Main A → (A → Main B) → Main B
◌>>=◌ m k p = let (exit, p') = m p in resume exit p' k

abbrev pub ◌>>◌ : {B : Type 0} → Main (Unit {0}) → Main B → Main B
m >> k = m >>= λ _. k

abbrev pub done : {A : Type 0} → A → Main A
done a p = (running a, p)

-- logger.Fatal
abbrev pub exit : {A : Type 0} → String → Main A
exit msg p = (fatal msg, p)

abbrev pub require : Bool → String → Main (Unit {0})
require true msg p = (running tt, p)
require false msg p = (fatal msg, p)

-- Something is opened, and its closing is deferred.
abbrev pub acquire : Resource → Main (Unit {0})
acquire r p = (running tt, record p { opened = r ∷ p.opened; deferred = closing r ∷ p.deferred })

-- What is left of the process when main has ended.
abbrev pub left_behind : {A : Type 0} → Exited A → Process → Process
left_behind (fatal _) p = p
left_behind panicked p = returned p
left_behind (running _) p = returned p

unfoldable pub run_main : {A : Type 0} → Main A → Process → Exited A × Process
run_main m p = let (exited, p') = m p in (exited, left_behind exited p')
