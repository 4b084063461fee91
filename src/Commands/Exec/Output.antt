-- ===== src/Commands/Exec/Output.antt =====
-- What exec.js writes of a command that has run on a node. `nikita` gives an error, where there is one, and
-- what was printed; `trim` is that of JavaScript. What is written before an exception is kept.
use ryba.Base.{
  String, ◌==◌, ◌≡◌, refl, Bool, true, false, not, ◌&&◌, ◌||◌, ◌⊎◌, List, [], ◌∷◌, ◌++◌, Option,
  none, some, Bool-cases, inl, inr, if◌then◌else◌,
}
use ryba.Js.{Error, Result, ok, err, ◌>>=◌, type_error}
use ryba.Text.{◌^^◌}

-- The error of a command that fails, with its own copies of what was printed, if it has them.
pub record Failure : Type 0 where
  pub exit_code : String
  pub stdout : Option String
  pub stderr : Option String

pub record Execution : Type 0 where
  pub error : Option Failure
  pub stdout : Option String
  pub stderr : Option String

-- A text of which the length is read.
abbrev pub defined : Option String → Result String
defined none = err type_error
defined (some s) = ok s

abbrev pub failure_text : (Failure → Option String) → Option Failure → Result String
failure_text text none = err type_error
failure_text text (some f) = defined (text f)

-- `stdout || error.stdout`, where `error` may be undefined, before its `length`.
unfoldable pub text_or : Option String → (Failure → Option String) → Option Failure → Result String
text_or none text error = failure_text text error
text_or (some s) text error = if s == "" then failure_text text error else ok s

abbrev pub out_of : Execution → Result String
out_of run = text_or run.stdout (λ f. f.stdout) run.error

abbrev pub err_of : Execution → Result String
err_of run = text_or run.stderr (λ f. f.stderr) run.error

-- The name of the node, in red or green.
unfoldable pub headline : String → Option Failure → String
headline fqdn none = "\u{1b}[32m" ^^ (fqdn ^^ "\u{1b}[39m\n")
headline fqdn (some f) =
    "\u{1b}[31m" ^^ (fqdn ^^ (" (exit code " ^^ (f.exit_code ^^ ")\u{1b}[39m\n")))

-- What has been written, and how the callback ends.
abbrev pub Written : Type 0
Written = List String × Result (Unit {0})

abbrev pub write_then : Result (List String) → Written → Written
write_then (err e) rest = ([], err e)
write_then (ok texts) rest = (texts ++ rest.0, rest.1)

-- `(stdout || error.stdout).length || (stderr || error.stderr).length`
unfoldable pub separator : Execution → Result (List String)
separator run = out_of run >>= λ o.
    if o == "" then (err_of run >>= λ e. ok (if e == "" then [] else "\n" ∷ [])) else ok ("\n" ∷ [])

unfoldable pub coloured : (String → String) → String → Result String → Result (List String)
coloured trim colour text =
    text >>= λ t. ok (if t == "" then [] else (colour ^^ (trim t ^^ "\u{1b}[39m\n")) ∷ [])

unfoldable pub write_output : (String → String) → String → Execution → Written
write_output trim fqdn run = write_then (ok (headline fqdn run.error ∷ [])) (
    write_then (separator run) (
      write_then (coloured trim "\u{1b}[36m" (out_of run))
        (write_then (coloured trim "\u{1b}[35m" (err_of run)) ("\n" ∷ [], ok tt))))

abbrev pub has_copy : (Failure → Option String) → Option Failure → Bool
has_copy text none = false
has_copy text (some f) = elim (text f) [ none ↦ false | some t ↦ true ]

-- Something was printed, or there is an error with its own copy.
abbrev pub has_text : Option String → (Failure → Option String) → Option Failure → Bool
has_text none text error = has_copy text error
has_text (some s) text error = not (s == "") || has_copy text error

abbrev pub is_readable : Execution → Bool
is_readable run =
    has_text run.stdout (λ f. f.stdout) run.error && has_text run.stderr (λ f. f.stderr) run.error

module _ (trim : String → String) (fqdn : String) (run : Execution) where
  write_output-of_texts :
      (o e : String)
      → out_of run ≡ ok o
      → err_of run ≡ ok e
      → (write_output trim fqdn run).1 ≡ ok tt
  unfolding write_output separator coloured
  write_output-of_texts o e h l = elim (Bool-cases (o == "")) [
    | inl empty ↦ rw (write_output, separator, coloured, h, l, empty) refl
    | inr given ↦ rw (write_output, separator, coloured, h, l, given) refl
  ]

  write_output-no_stdout :
      (thrown : Error) → out_of run ≡ err thrown → (write_output trim fqdn run).1 ≡ err thrown
  unfolding write_output separator
  write_output-no_stdout thrown h = rw (write_output, separator, h) refl

  write_output-no_stderr :
      (o : String) (thrown : Error)
      → out_of run ≡ ok o
      → err_of run ≡ err thrown
      → (write_output trim fqdn run).1 ≡ err thrown
  unfolding write_output separator coloured
  write_output-no_stderr o thrown h l = elim (Bool-cases (o == "")) [
    | inl empty ↦ rw (write_output, separator, coloured, h, l, empty) refl
    | inr given ↦ rw (write_output, separator, coloured, h, l, given) refl
  ]

-- A text with whether it can be read.
abbrev IsRead : Bool → Result String → Type 0
IsRead b r = ((b ≡ true) × (t : String) × (r ≡ ok t)) ⊎ ((b ≡ false) × (r ≡ err type_error))

failure_text-cases :
    (text : Failure → Option String) (error : Option Failure)
    → IsRead (has_copy text error) (failure_text text error)
failure_text-cases text none = inr (refl, refl)
failure_text-cases text (some f) = of_copy (text f)
  where
    of_copy : (o : Option String) → IsRead (elim o [ none ↦ false | some t ↦ true ]) (defined o)
    of_copy none = inr (refl, refl)
    of_copy (some t) = inl (refl, t, refl)

text_or-cases :
    (s : Option String) (text : Failure → Option String) (error : Option Failure)
    → IsRead (has_text s text error) (text_or s text error)
unfolding text_or
text_or-cases none text error = failure_text-cases text error
text_or-cases (some s) text error = elim (Bool-cases (s == "")) [
  | inl empty ↦ rw empty (failure_text-cases text error)
  | inr given ↦ rw given (inl (refl, s, refl))
]

-- The output of a node is written to its end if each of stdout and stderr was printed on, or is a text of
-- the error of the command; otherwise the callback throws a TypeError: for a command that succeeds
-- and prints nothing on one of them, it reads a property of an error that is not there.
pub write_output-end :
    (trim : String → String) (fqdn : String) (run : Execution)
    → (write_output trim fqdn run).1 ≡ (if is_readable run then ok tt else err type_error)
write_output-end trim fqdn run = elim (text_or-cases run.stdout (λ f. f.stdout) run.error) [
  | inr (is_not, h) ↦ rw is_not (write_output-no_stdout trim fqdn run type_error h)
  | inl (is_out, o, h) ↦ elim (text_or-cases run.stderr (λ f. f.stderr) run.error) [
    | inr (is_not, l) ↦ rw (is_out, is_not) (write_output-no_stderr trim fqdn run o type_error h l)
    | inl (is_err, e, l) ↦ rw (is_out, is_err) (write_output-of_texts trim fqdn run o e h l)
  ]
]
