-- ===== src/Server/Commands.antt =====
-- legacy/masson/lib/commands/server: the commands `stop` and `status`. `process.exit` ends the
-- command, so a command is the lines that it prints with its exit code.
use ryba.Base.{ℕ, String, Bool, true, false}
use ryba.Server.{Machine, Outcome, failed, finished, stop, status}

abbrev pub Exit : Type 0
Exit = String × ℕ

unfoldable pub stop_exit : Outcome → Exit
stop_exit (failed code) = ("HTTP Server Kill Failed", 1)
stop_exit (finished true) = ("HTTP Server Stopped", 0)
stop_exit (finished false) = ("HTTP Server Already Stopped", 3)

unfoldable pub status_exit : Bool → Exit
status_exit true = ("HTTP Server Started", 0)
status_exit false = ("HTTP Server Stopped", 1)

unfoldable pub stop_command : Machine → Exit × Machine
stop_command m = let (outcome, m') = stop m in (stop_exit outcome, m')

unfoldable pub status_command : Machine → Exit
status_command m = status_exit (status m)
