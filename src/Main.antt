-- ===== src/Main.antt =====
-- `main` of src/main.rs: what the program prints for the paths that it is given, and its exit code. The
-- set-up of the log and the parsing of the arguments are left out.
pub mod Exits
use vmdk_rs.Base.{List, [], ◌∷◌, ◌++◌, Option, none, some, map}
use vmdk_rs.Base.Outcome.{Outcome, ok, err, panic, hang}
use vmdk_rs.Crates.{ByteOrder, Deflate}
use vmdk_rs.Text.{Text, codes}
use vmdk_rs.Io.{Bytes, Cache}
use vmdk_rs.Errors.{OpenError}
use vmdk_rs.Reader.{VmdkReader}
use vmdk_rs.Hash.{Hasher, VmdkError, run}

pub data ExitCode : Type 0 where
  success : ExitCode
  failure : ExitCode

-- The lines on the standard output and on the standard error, and the exit code.
pub record Exit : Type 0 where
  pub stdout : List Text
  pub stderr : List Text
  pub code : ExitCode

-- `hex` stands for `hex::encode`, and `message` for the messages of the errors.
module _ (order : ByteOrder) (deflate : Deflate) (hasher : Hasher)
    (open_path : Text → Outcome OpenError (VmdkReader × Cache)) (hex : Bytes → Text)
    (message : VmdkError → Text) where
  -- `println!("{p}: {}", …)`
  abbrev pub line : Text × Bytes → Text
  line (p, digest) = p ++ codes ": " ++ hex digest

  -- `match run(args)`; a run that panics or does not end gives no exit code.
  unfoldable pub exit_of : List (Text × Bytes) × Outcome VmdkError (Unit {0}) → Option Exit
  exit_of (printed, ok u) = some (record { stdout = map line printed; stderr = []; code = success })
  exit_of (printed, err e) =
      some (record { stdout = map line printed; stderr = message e ∷ []; code = failure })
  exit_of (printed, panic) = none
  exit_of (printed, hang) = none

  -- `main`
  unfoldable pub main : List Text → Option Exit
  main vmdk_paths = exit_of (run order deflate hasher open_path vmdk_paths)
