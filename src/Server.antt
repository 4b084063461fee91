-- ===== src/Server.antt =====
-- legacy/masson/lib/server.js: the HTTP server of the development tools, stopped and tested by shell
-- scripts. The state is what the scripts read and write of the machine: the file of the process
-- identifier and the running processes. `start` calls `require` in an ES module and throws before its
-- script; it is left out.
pub mod Stopping
pub mod Commands
mod Tests
use ryba.Base.{
  ℕ, String, ◌==◌, Bool, true, false, not, ◌||◌, List, [], ◌∷◌, any, keep, Option, none, some, ◌=ℕ◌,
  if◌then◌else◌, contains,
}

-- `options.pidfile`, and the identifiers of the processes that the user may signal.
pub record Machine : Type 0 where
  pub pidfile : Option ℕ
  pub processes : List ℕ

-- `kill -0 $pid`
unfoldable pub is_alive : ℕ → List ℕ → Bool
is_alive pid processes = any (λ p. p =ℕ pid) processes

-- `kill $pid`: a process ends on the signal.
unfoldable pub kill : ℕ → List ℕ → List ℕ
kill pid processes = keep (λ p. not (p =ℕ pid)) processes

-- What a callback is given: an error with the exit code, or whether something was done.
pub data Outcome : Type 0 where
  failed : (code : ℕ) → Outcome
  finished : Bool → Outcome

-- The callback of `stop`: exit code 0, exit code 3, and any other.
unfoldable pub callback : ℕ → Outcome
callback code =
    if code =ℕ 0 then finished true else if code =ℕ 3 then finished false else failed code

-- The script of `stop`. A file that names no running process is removed as well.
unfoldable pub stop_pid : Machine → Option ℕ → ℕ × Machine
stop_pid m none = (3, m)
stop_pid m (some pid) =
    if not (is_alive pid m.processes)
    then (0, record m { pidfile = none })
    else (0, record m { pidfile = none; processes = kill pid m.processes })

unfoldable pub stop : Machine → Outcome × Machine
stop m = let (code, m') = stop_pid m m.pidfile in (callback code, m')

unfoldable pub status_pid : Machine → Option ℕ → ℕ
status_pid m none = 1
status_pid m (some pid) = if not (is_alive pid m.processes) then 1 else 0

-- `callback(null, !err)`
unfoldable pub status : Machine → Bool
status m = status_pid m m.pidfile =ℕ 0
