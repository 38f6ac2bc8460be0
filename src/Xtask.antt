-- ===== src/Xtask.antt =====
-- xtask/src: the build tool. A text is the list of its bytes; what the operating system answers is
-- a parameter or, for the commands that are run, a list of results.
pub mod Make
pub mod MeneRootfs
mod Tests
use Prim.Native.String.{String}
use Prim.Native.Char.{code}
use mene_os.Base.{
  ℕ, Bool, true, false, List, [], ◌∷◌, ◌++◌, Option, none, some, Result, ok, err, map, ◌==◌,
  if◌then◌else◌,
}
use mene_os.Base.Text.{starts_with, ends_with}

-- A text of the source, which is ASCII.
abbrev pub text : String → List ℕ
text Prim.Native.String.[] = []
text (Prim.Native.String.◌∷◌ c s) = code c ∷ text s

pub data XtaskError : Type 0 where
  io : XtaskError
  message : List ℕ → XtaskError

-- A command with its arguments and the variables that are set for it.
pub record Command : Type 0 where
  pub program : List ℕ
  pub args : List (List ℕ)
  pub env : List (List ℕ × List ℕ)

-- How a command ended: it could not be started, or its status is a success or not.
pub data Status : Type 0 where
  not_started : Status
  exited : Bool → Status

-- The commands that were run, in their order, and how those to come will end. Past the end of the
-- list a command succeeds.
pub record Shell : Type 0 where
  pub ran : List Command
  pub statuses : List Status

abbrev pub next_status : List Status → Status × List Status
next_status [] = (exited true, [])
next_status (x ∷ xs) = (x, xs)

-- `Command::status`
unfoldable pub status : Command → Shell → Status × Shell
status c sh =
    let (x, xs) = next_status sh.statuses in (x, record { ran = sh.ran ++ c ∷ []; statuses = xs })

-- `Path::join` of Unix paths
unfoldable pub join : List ℕ → List ℕ → List ℕ
join base path =
    if starts_with (text "/") path
    then path
    else if ends_with b'/' base
    then base ++ path
    else base ++ b'/' ∷ path

-- `replace('\\', "/")`
abbrev pub slashes : List ℕ → List ℕ
slashes path = map (λ b. if b == b'\\' then b'/' else b) path
