-- ===== src/Logging/Tests.antt =====
-- Runs of `InitLogging` and `TermLogging` (src/common/Log.cc).
use rem_svc.Base.{
  ltb, leb, ◌&&◌, arith, [], none, some, Bool, true, Bytes, refl, codes, if◌then◌else◌, ◌≡◌,
}
use rem_svc.Base.Int.{pos}
use rem_svc.Logging.{level_number, info, CliVars, LogState, init_logging, start_logging}
use rem_svc.Logging.Output.{Threshold, delivered, log_debug, delivered-log_debug}

abbrev fresh : LogState
fresh = record {
  allowed_debug_level = pos 0;
  log_file_name = [];
  log_sinks = [];
  main_logger = none;
}

abbrev any_file : Bytes → Bool
any_file file = true

-- Debug messages up to the level 2.
abbrev chatty : CliVars
chatty = record { log_file = codes "a.log"; log_level = []; dbg_level = pos 2 }

abbrev by_level : Threshold
by_level = record {
  passes = λ own given. leb (level_number own) (level_number given);
  by_number = λ own given. refl;
}

abbrev chatting : LogState
chatting = init_logging chatty info fresh

chats : start_logging any_file chatty info fresh ≡ some chatting
unfolding start_logging
chats = refl

delivered-log_debug_example :
    delivered by_level chatting (log_debug chatting (pos 1) (codes "rc=0"))
    ≡ (if ltb 0 2 && leb 1 2 then chatting.log_sinks else [])
delivered-log_debug_example =
    delivered-log_debug by_level any_file chatty info fresh chatting 2 1 (codes "rc=0") refl refl
      (omega arith) chats
