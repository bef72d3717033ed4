-- ===== src/Suite/Shared.antt =====
-- tst/unit/cpp/CommonTest.cc: the tests of what src/common holds.
use rem_svc.Base.{
  [], Option, none, some, true, false, All, Bytes, codes, is_empty, length, bytes_eq, ◌≡◌, ◌≢◌,
  refl, arith,
}
use rem_svc.Base.Int.{pos, negsuc}
use rem_svc.Assertions.{Location, expects, ensures}
use rem_svc.Crc.{crc32_hex}
use rem_svc.Crc.Hex.{IsHexDigit, crc32_hex-shape}
use rem_svc.Logging.{
  trace, debug, info, warn, error, CliVars, LogState, str_to_log_level, default_log_file_name,
  start_logging, term_logging,
}
use rem_svc.Logging.Output.{Logger, get_logger}
use rem_svc.Cli.{CommonArgs, configure_cli}
use rem_svc.Suite.Fakes.{contains, Returns}

-- The place of the call is left open.
module _ (loc : Location) where
  abbrev ExpectsPassesOnTrue : Type 0
  ExpectsPassesOnTrue = expects true loc ≡ none

  expects_passes : ExpectsPassesOnTrue
  unfolding expects
  expects_passes = refl

  abbrev ExpectsThrowsOnFalse : Type 0
  ExpectsThrowsOnFalse = Returns (λ what. Unit) (expects false loc)

  expects_throws : ExpectsThrowsOnFalse
  unfolding expects
  expects_throws = tt

  abbrev ExpectsErrorMessageContainsLocation : Type 0
  ExpectsErrorMessageContainsLocation =
      Returns (λ what. contains (codes "Expect failure") what ≡ true) (expects false loc)

  expects_message : ExpectsErrorMessageContainsLocation
  unfolding expects
  expects_message = refl

  abbrev EnsuresPassesOnTrue : Type 0
  EnsuresPassesOnTrue = ensures true loc ≡ none

  ensures_passes : EnsuresPassesOnTrue
  unfolding ensures
  ensures_passes = refl

  abbrev EnsuresThrowsOnFalse : Type 0
  EnsuresThrowsOnFalse = Returns (λ what. Unit) (ensures false loc)

  ensures_throws : EnsuresThrowsOnFalse
  unfolding ensures
  ensures_throws = tt

  abbrev EnsuresErrorMessageContainsLocation : Type 0
  EnsuresErrorMessageContainsLocation =
      Returns (λ what. contains (codes "Ensure failure") what ≡ true) (ensures false loc)

  ensures_message : EnsuresErrorMessageContainsLocation
  unfolding ensures
  ensures_message = refl

abbrev KnownLevels : Type 0
KnownLevels =
    (str_to_log_level (codes "trace") ≡ trace)
    × (str_to_log_level (codes "debug") ≡ debug)
    × (str_to_log_level (codes "info") ≡ info)
    × (str_to_log_level (codes "warn") ≡ warn)
    × (str_to_log_level (codes "error") ≡ error)

known_levels : KnownLevels
unfolding str_to_log_level bytes_eq
known_levels = (refl, refl, refl, refl, refl)

abbrev UnknownLevelDefaultsToInfo : Type 0
UnknownLevelDefaultsToInfo =
    (str_to_log_level (codes "bogus") ≡ info)
    × (str_to_log_level (codes "") ≡ info)
    × (str_to_log_level (codes "TRACE") ≡ info)

unknown_level : UnknownLevelDefaultsToInfo
unfolding str_to_log_level bytes_eq
unknown_level = (refl, refl, refl)

abbrev ReturnsNonEmptyString : Type 0
ReturnsNonEmptyString = is_empty (default_log_file_name (codes "myapp")) ≡ false

name_nonempty : ReturnsNonEmptyString
unfolding default_log_file_name bytes_eq
name_nonempty = refl

abbrev PreservesAppName : Type 0
PreservesAppName = contains (codes "myapp") (default_log_file_name (codes "myapp")) ≡ true

name_kept : PreservesAppName
unfolding default_log_file_name bytes_eq
name_kept = refl

abbrev AppendsLogExtension : Type 0
AppendsLogExtension = default_log_file_name (codes "myapp") ≡ codes "myapp.log"

extension_added : AppendsLogExtension
unfolding default_log_file_name bytes_eq
extension_added = refl

abbrev ReplacesExistingExtension : Type 0
ReplacesExistingExtension = default_log_file_name (codes "myapp.exe") ≡ codes "myapp.log"

extension_replaced : ReplacesExistingExtension
unfolding default_log_file_name bytes_eq
extension_replaced = refl

-- `SetUp` of `ConfigureCLITest`
abbrev set_up : CliVars
set_up = record { log_file = []; log_level = []; dbg_level = negsuc 0 }

-- What CLI11 makes of a command line without options; the tests add what it makes of theirs.
abbrev prog : CommonArgs
prog = record {
  parse_error = false;
  version = false;
  app_name = codes "prog";
  log_file = none;
  debug = none;
  log_level = none;
}

abbrev NoOptionsReturnsZero : Type 0
NoOptionsReturnsZero = let (rc, vars) = configure_cli prog set_up in rc ≡ pos 0

no_options : NoOptionsReturnsZero
unfolding configure_cli
no_options = refl

abbrev LogFileOptionSetsGlobal : Type 0
LogFileOptionSetsGlobal =
    let (rc, vars) = configure_cli (record prog { log_file = some (codes "out.log") }) set_up in
    (rc ≡ pos 0) × (vars.log_file ≡ codes "out.log")

sets_log_file : LogFileOptionSetsGlobal
unfolding configure_cli
sets_log_file = (refl, refl)

abbrev LogLevelOptionSetsGlobal : Type 0
LogLevelOptionSetsGlobal =
    let (rc, vars) = configure_cli (record prog { log_level = some (codes "warn") }) set_up in
    (rc ≡ pos 0) × (vars.log_level ≡ codes "warn")

sets_log_level : LogLevelOptionSetsGlobal
unfolding configure_cli
sets_log_level = (refl, refl)

abbrev DebugLevelOptionSetsGlobal : Type 0
DebugLevelOptionSetsGlobal =
    let (rc, vars) = configure_cli (record prog { debug = some (pos 5) }) set_up in
    (rc ≡ pos 0) × (vars.dbg_level ≡ pos 5)

sets_debug_level : DebugLevelOptionSetsGlobal
unfolding configure_cli
sets_debug_level = (refl, refl)

abbrev DebugLevelZeroIsValid : Type 0
DebugLevelZeroIsValid =
    let (rc, vars) = configure_cli (record prog { debug = some (pos 0) }) set_up in
    (rc ≡ pos 0) × (vars.dbg_level ≡ pos 0)

zero_debug_level : DebugLevelZeroIsValid
unfolding configure_cli
zero_debug_level = (refl, refl)

abbrev DebugLevelOutOfRangeReturnsOne : Type 0
DebugLevelOutOfRangeReturnsOne =
    let (rc, vars) = configure_cli (record prog { debug = some (pos 10) }) set_up in rc ≡ pos 1

debug_level_out_of_range : DebugLevelOutOfRangeReturnsOne
unfolding configure_cli
debug_level_out_of_range = refl

abbrev UnknownOptionReturnsOne : Type 0
UnknownOptionReturnsOne =
    let (rc, vars) = configure_cli (record prog { parse_error = true }) set_up in rc ≡ pos 1

unknown_option : UnknownOptionReturnsOne
unfolding configure_cli
unknown_option = refl

abbrev VersionFlagReturnsOne : Type 0
VersionFlagReturnsOne =
    let (rc, vars) = configure_cli (record prog { version = true }) set_up in rc ≡ pos 1

version_flag : VersionFlagReturnsOne
unfolding configure_cli
version_flag = refl

-- The program before the logging is started, whose log file opens.
abbrev no_logger : LogState
no_logger = record {
  allowed_debug_level = pos 10;
  log_file_name = [];
  log_sinks = [];
  main_logger = none;
}

abbrev init : Option LogState
init = start_logging (λ file. true) set_up info no_logger

abbrev InitLoggingReturnsZero : Type 0
InitLoggingReturnsZero = Returns (λ s. Unit) init

init_returns : InitLoggingReturnsZero
unfolding start_logging
init_returns = tt

module _ (others : Bytes → Option Logger) where
  abbrev GetLoggerThrowsBeforeInit : Type 0
  GetLoggerThrowsBeforeInit = get_logger others no_logger none ≡ none

  no_logger_before : GetLoggerThrowsBeforeInit
  unfolding get_logger bytes_eq
  no_logger_before = refl

  abbrev GetLoggerReturnsNonNullAfterInit : Type 0
  GetLoggerReturnsNonNullAfterInit =
      Returns (λ s. Returns (λ logger. Unit) (get_logger others s none)) init

  logger_after : GetLoggerReturnsNonNullAfterInit
  unfolding get_logger start_logging bytes_eq
  logger_after = tt

  abbrev GetLoggerThrowsAfterTerm : Type 0
  GetLoggerThrowsAfterTerm = Returns (λ s. get_logger others (term_logging s) none ≡ none) init

  no_logger_after_term : GetLoggerThrowsAfterTerm
  unfolding get_logger start_logging term_logging bytes_eq
  no_logger_after_term = refl

abbrev EmptyStringIsKnownValue : Type 0
EmptyStringIsKnownValue = crc32_hex (codes "") ≡ codes "00000000"

empty_hash : EmptyStringIsKnownValue
unfolding crc32_hex
empty_hash = refl

abbrev KnownVector : Type 0
KnownVector = crc32_hex (codes "123456789") ≡ codes "cbf43926"

check_vector : KnownVector
unfolding crc32_hex
check_vector = refl

abbrev DifferentInputsDifferentHashes : Type 0
DifferentInputsDifferentHashes = crc32_hex (codes "hello") ≢ crc32_hex (codes "world")

different_hashes : DifferentInputsDifferentHashes
unfolding crc32_hex
different_hashes = λ h. ground (arith, h)

abbrev SameInputSameHash : Type 0
SameInputSameHash = crc32_hex (codes "echo hi") ≡ crc32_hex (codes "echo hi")

same_hash : SameInputSameHash
same_hash = refl

abbrev OutputIsEightHexChars : Type 0
OutputIsEightHexChars = let h = crc32_hex (codes "any string") in (length h ≡ 8) × All IsHexDigit h

hex_chars : OutputIsEightHexChars
hex_chars = crc32_hex-shape (codes "any string")
