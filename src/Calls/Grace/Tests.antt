-- ===== src/Calls/Grace/Tests.antt =====
-- The time that calls take on a system where every command sleeps for ever.
use rem_svc.Base.{ℕ, List, [], ◌∷◌, codes, refl, arith}
use rem_svc.Base.Int.{ℤ, pos, ◌≤ℤ◌}
use rem_svc.Base.Maps.{TextMap}
use rem_svc.Proto.{RemCmdMsg}
use rem_svc.Auth.{auth_header}
use rem_svc.Service.{State, CmdRunner}
use rem_svc.Process.Rounds.{default_runner}
use rem_svc.Lifecycle.{shutdown_deadline}
use rem_svc.Lifecycle.Shutdown.{IsInt32}
use rem_svc.Calls.{call_rem_cmd}
use rem_svc.Calls.Grace.{call_rem_cmd-deadline}
use rem_svc.Samples.{documented, up, request}
use rem_svc.Samples.Naps.{naps, ticks, naps_expire}

abbrev alice : TextMap
alice = (auth_header, codes "Bearer alice") ∷ []

abbrev at_500 : State ℕ
at_500 = record { commands_executed = 0; world = 500 }

abbrev sleeper : ℤ → CmdRunner ℕ
sleeper t = default_runner naps (pos 30000) (λ w. 600) (naps_expire 600)

int32 : IsInt32 (pos 30000)
int32 = record { low = omega arith; high = omega arith }

call_rem_cmd-deadline_example :
    pos (call_rem_cmd sleeper up documented alice at_500 (request (codes "ls"))).0.world
    ≤ℤ shutdown_deadline 700 (pos 30000)
call_rem_cmd-deadline_example =
    call_rem_cmd-deadline ticks 30000 (λ w. 600) (naps_expire 600) sleeper up refl documented alice
      at_500 (request (codes "ls")) 700 int32 (omega arith) (omega arith)

abbrev two : List RemCmdMsg
two = request (codes "ls") ∷ request (codes "ls -l") ∷ []
