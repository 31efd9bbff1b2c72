-- ===== src/Runtime/Host.antt =====
-- crates/runtime/src/main.rs: the host that the launcher runs on, and how its steps follow each
-- other. A file is its text and whether only its owner may read it, and the disk has it under one name; what the launcher has other
-- programs do is recorded in order.
use multinode_controller.Base.{ℕ, Bool, List, [], ◌∷◌, ◌++◌, Option, Text, Map, Result}
use multinode_controller.Protocol.{FilePath}
use multinode_controller.Coordinator.State.{Outcome, ok, err, waiting}

pub record File : Type 0 where
  pub text : Text
  pub is_private : Bool

pub data Call : Type 0 where
  create_dir : FilePath → Call
  tool : List Text → Call
  spawn : List Text → FilePath → Call
  sleep : (milliseconds : ℕ) → Call
  kill : (label : Text) → Call
  install_handlers : Call

pub record Host : Type 0 where
  pub disk : Map File
  pub calls : List Call
  pub printed : List Text

-- What the operating system answers: the error of an access to a path that is refused, the parent
-- of a path and the file that it leads to, which other paths may lead to as well, the success and
-- the output of a program that is run, the error of one that is started, the decoding of UTF-8, the
-- error of installing the signal handlers, and what other programs, those started among them, have
-- done to the files when a call is over.
pub record Os : Type 0 where
  pub refused : FilePath → Option Text
  pub parent : FilePath → Option FilePath
  pub output : List Text → Result (Bool × Text)
  pub spawned : List Text → Result (Unit {0})
  pub from_utf8 : Text → Result Text
  pub handlers : Result (Unit {0})
  pub file_of : FilePath → FilePath
  pub others : Call → Map File → Map File

abbrev pub Action : Type 0 → Type 0
Action A = Host → Outcome A × Host

unfoldable pub go_on : {A B : Type 0} → Outcome A → (A → Action B) → Action B
go_on (ok a) f h = f a h
go_on (err e) f h = (err e, h)
go_on waiting f h = (waiting, h)

infixl 5 ◌into◌ ◌next◌
abbrev pub ◌into◌ : {A B : Type 0} → Action A → (A → Action B) → Action B
◌into◌ m f h = go_on (m h).0 f (m h).1

abbrev pub ◌next◌ : {B : Type 0} → Action (Unit {0}) → Action B → Action B
m next k = m into λ _. k

abbrev pub return : {A : Type 0} → A → Action A
return a h = (ok a, h)

abbrev pub bail : {A : Type 0} → Text → Action A
bail e h = (err e, h)

abbrev pub from_result : {A : Type 0} → Result A → Outcome A
from_result (Result.ok a) = ok a
from_result (Result.err e) = err e

-- A call, with what other programs have done by its end.
abbrev pub record_call : Os → Call → Action (Unit {0})
record_call os call h =
    (ok tt, record h { calls = h.calls ++ call ∷ []; disk = os.others call h.disk })

abbrev pub println : List Text → Action (Unit {0})
println lines h = (ok tt, record h { printed = h.printed ++ lines })
