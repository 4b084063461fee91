-- ===== src/Commands/Exec/Tests.antt =====
-- A command that succeeds and prints nothing on stderr.
use ryba.Base.{String, ◌≡◌, refl, [], ◌∷◌, none, some}
use ryba.Js.{ok, err, type_error}
use ryba.Commands.Exec.Output.{
  Execution, text_or, headline, separator, coloured, write_output, write_output-end,
}

abbrev trim : String → String
trim s = s

abbrev run : Execution
run = record { error = none; stdout = some "active"; stderr = some "" }

written :
    write_output trim "m1.ryba" run
    ≡ ("\u{1b}[32mm1.ryba\u{1b}[39m\n" ∷ "\n" ∷ "\u{1b}[36mactive\u{1b}[39m\n" ∷ [], err type_error)
unfolding text_or headline separator coloured write_output
written = refl

failed :
    (write_output trim "m1.ryba" (record run {
      error = some (record { exit_code = "3"; stdout = some ""; stderr = some "" });
    })).1
    ≡ ok tt
unfolding text_or headline separator coloured write_output
failed = refl

write_output-end_example : (write_output trim "m1.ryba" run).1 ≡ err type_error
write_output-end_example = write_output-end trim "m1.ryba" run
