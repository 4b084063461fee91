-- ===== src/Server/Tests.antt =====
-- A machine with a server that the file names, and another process.
use ryba.Base.{◌≡◌, true, false, ◌&&◌, [], ◌∷◌, some, none}
use ryba.Server.{Machine, finished, is_alive, stop, status}
use ryba.Server.Commands.{stop_command, status_command}
use ryba.Server.Stopping.{stop-ended, stop_command-twice}

abbrev machine : Machine
machine = record { pidfile = some 41; processes = 40 ∷ 41 ∷ [] }

stop-ended_example :
    (status (stop machine).1 ≡ false)
    × ((stop machine).1.pidfile ≡ none)
    × ((stop machine).0 ≡ finished true)
    × (is_alive 41 (stop machine).1.processes ≡ (is_alive 41 machine.processes && false))
stop-ended_example = stop-ended machine 41

stop_command-twice_example :
    (status_command (stop_command machine).1 ≡ ("HTTP Server Stopped", 1))
    × (stop_command (stop_command machine).1
        ≡ (("HTTP Server Already Stopped", 3), (stop_command machine).1))
stop_command-twice_example = stop_command-twice machine
