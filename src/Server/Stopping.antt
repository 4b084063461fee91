-- ===== src/Server/Stopping.antt =====
-- What `stop` leaves, and what the commands say after it.
use ryba.Base.{
  ℕ, ◌≡◌, inl, inr, refl, sym, ap, ◌∙◌, Bool, true, false, not, ◌&&◌, List, [], ◌∷◌, Option, none,
  some, Bool-cases, ◌=ℕ◌, arith,
}
use ryba.Server.{Machine, finished, is_alive, kill, callback, stop_pid, stop, status_pid, status}
use ryba.Server.Commands.{stop_exit, stop_command, status_exit, status_command}

abbrev pub has_file : Option ℕ → Bool
has_file none = false
has_file (some _) = true

abbrev pub is_named : ℕ → Option ℕ → Bool
is_named q none = false
is_named q (some pid) = pid =ℕ q

is_alive-kill :
    (q pid : ℕ) (ps : List ℕ) → is_alive q (kill pid ps) ≡ (is_alive q ps && not (pid =ℕ q))
unfolding kill is_alive
is_alive-kill q pid [] = refl
is_alive-kill q pid (p ∷ ps) = elim (Bool-cases (p =ℕ pid)) [
  | inl same ↦ rw (same, is_alive-kill q pid ps) (ground arith)
  | inr other ↦ rw (other, is_alive-kill q pid ps) (ground arith)
]

and_true : (b : Bool) → (b && true) ≡ b
and_true true = refl
and_true false = refl

and_dead :
    (q pid : ℕ) (ps : List ℕ)
    → is_alive pid ps ≡ false
    → is_alive q ps ≡ (is_alive q ps && not (pid =ℕ q))
and_dead q pid ps dead = elim (Bool-cases (pid =ℕ q)) [
  | inl same ↦
      let e : pid ≡ q = ground (arith, same) in
      let dead' : is_alive q ps ≡ false = ap (λ n. is_alive n ps) (sym e) ∙ dead in rw dead' refl
  | inr other ↦ rw other (sym (and_true (is_alive q ps)))
]

stop-no_file : (m : Machine) → m.pidfile ≡ none → stop m ≡ (finished false, m)
unfolding stop stop_pid callback
stop-no_file m e = ap (λ o. let (code, m') = stop_pid m o in (callback code, m')) e

stop_pid-ended :
    (m : Machine) (o : Option ℕ) (q : ℕ)
    → o ≡ m.pidfile
    → ((status_pid (stop_pid m o).1 (stop_pid m o).1.pidfile =ℕ 0) ≡ false)
      × ((stop_pid m o).1.pidfile ≡ none)
      × (callback (stop_pid m o).0 ≡ finished (has_file o))
      × (is_alive q (stop_pid m o).1.processes ≡ (is_alive q m.processes && not (is_named q o)))
unfolding stop_pid callback status_pid
stop_pid-ended m none q e = rw (sym e) (refl, refl, refl, sym (and_true (is_alive q m.processes)))
stop_pid-ended m (some pid) q e = elim (Bool-cases (is_alive pid m.processes)) [
  | inl alive ↦ rw alive (refl, refl, refl, is_alive-kill q pid m.processes)
  | inr dead ↦ rw dead (refl, refl, refl, and_dead q pid m.processes dead)
]

-- After `stop` there is no file and `status` is false; it reports that it has done something exactly if
-- there was a file, and never fails; the processes that run are those from before, without the one
-- that the file has named.
pub stop-ended :
    (m : Machine) (q : ℕ)
    → (status (stop m).1 ≡ false)
      × ((stop m).1.pidfile ≡ none)
      × ((stop m).0 ≡ finished (has_file m.pidfile))
      × (is_alive q (stop m).1.processes ≡ (is_alive q m.processes && not (is_named q m.pidfile)))
unfolding stop status
stop-ended m q = stop_pid-ended m m.pidfile q refl

-- After the command `stop`, the command `status` prints that the server is stopped and exits with 1,
-- and `stop` again prints that it is stopped already, exits with 3 and changes nothing.
pub stop_command-twice :
    (m : Machine)
    → (status_command (stop_command m).1 ≡ ("HTTP Server Stopped", 1))
      × (stop_command (stop_command m).1 ≡ (("HTTP Server Already Stopped", 3), (stop_command m).1))
unfolding stop_command status_command stop_exit status_exit
stop_command-twice m =
    let (stopped, no_file, done, others) = stop-ended m 0 in
    rw (stop-no_file (stop m).1 no_file, stopped) (refl, refl)
