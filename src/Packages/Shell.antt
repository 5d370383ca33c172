-- ===== src/Packages/Shell.antt =====
-- internal/packagemgr/manager.go and the part of chocolatey.go and homebrew.go that runs commands.
-- The operating system is a parameter: what a program prints and how it ends, and which files are
-- there; `read_dir` is given the two parts of the path. The codes, the details and the texts of errors beyond their messages are left out, and so
-- are the durations.
use castle_ops_client.Prelude.{
  String, Bool, true, false, Option, none, some, List, [], ◌∷◌, str_eq, if◌then◌else◌, Error, plain,
  wrapped, Result, ok, err,
}
use castle_ops_client.Prelude.Assoc.{Assoc}
use castle_ops_client.Prelude.Int.{ℤ, pos}
use castle_ops_client.Cache.Types.{Time}
use castle_ops_client.Packages.{not_installed}
use Prim.Native.String.{◌++◌ as str_append}

-- How a program ended: `failure` is the error of cmd.Run, `exit_code` that of an ExitError, and
-- `timed_out` tells that the context's deadline had passed.
pub record Ran : Type 0 where
  pub stdout : String
  pub stderr : String
  pub combined : String
  pub failure : Option Error
  pub exit_code : Option ℤ
  pub timed_out : Bool

pub record Shell (S : Type 0) : Type 0 where
  pub os : String
  pub run : String → List String → S → Ran × S
  pub exists : String → S → Bool
  pub read_dir : String → String → S → List (String × Option Time)

pub record CommandOutput : Type 0 where
  pub stdout : String
  pub stderr : String
  pub exit_code : ℤ
  pub success : Bool

-- WrapError
abbrev pub wrap_error : Option Error → String → Error
wrap_error none message = plain message
wrap_error (some e) message = wrapped message e

abbrev code_or_zero : Option ℤ → ℤ
code_or_zero none = pos 0
code_or_zero (some n) = n

abbrev succeeded : Option Error → Bool
succeeded none = true
succeeded (some e) = false

abbrev pub output_of : Ran → CommandOutput
output_of r = record {
  stdout = r.stdout;
  stderr = r.stderr;
  exit_code = code_or_zero r.exit_code;
  success = succeeded r.failure;
}

abbrev pub command_error : Bool → Option Error → Option Error
command_error timed_out none = none
command_error true (some e) = some (wrapped "command timed out" e)
command_error false (some e) = some e

abbrev option_args : Assoc String → List String
option_args [] = []
option_args (option ∷ options) =
    (if str_eq option.1 "" then option.0 else str_append option.0 (str_append "=" option.1))
    ∷ option_args options

-- The options of a package as arguments. `range` is the order in which Go visits the map.
abbrev pub custom_options : (Assoc String → Assoc String) → Assoc String → List String
custom_options range options = option_args (range options)

module _ {S : Type 0} (shell : Shell S) where
  unfoldable pub execute_command : String → List String → S → CommandOutput × Option Error × S
  execute_command program args s =
      let (ran, s') = shell.run program args s in
      (output_of ran, command_error ran.timed_out ran.failure, s')

module _ {S A : Type 0} where
  -- The check with which every operation on packages begins.
  abbrev pub when_installed : String → (S → Result A × S) → Result Bool × S → Result A × S
  when_installed message act (err e, s) = (err (wrapped message e), s)
  when_installed message act (ok true, s) = act s
  when_installed message act (ok false, s) = (err not_installed, s)

-- What an operation makes of the command that it ran.
abbrev pub done_or :
    {S : Type 0} → String → CommandOutput × Option Error × S → Result (Unit {0}) × S
done_or message (output, none, s) = (ok tt, s)
done_or message (output, some e, s) = (err (wrapped message e), s)
