-- ===== src/Commands/Pki.antt =====
-- legacy/masson/lib/commands/pki: the shell scripts of ca, cert, check, cacert-view and cert-view, on the
-- files of the directory `params.dir`. The commands of openssl are parameters; each reads and writes
-- files, and ends with a code and what it prints. A name without a slash and without quotes is meant.
pub mod Laws
pub mod Hosts
mod Tests
use ryba.Base.{
  ℕ, String, ◌==◌, ◌=ℕ◌, Bool, true, false, ◌&&◌, List, [], ◌∷◌, Option, none, some, if◌then◌else◌,
}
use ryba.Text.{first_label, split, ◌^^◌}

-- A file of the directory, by what stands before its first dot and what stands behind it.
pub record FileName : Type 0 where
  pub stem : String
  pub extension : String

abbrev pub is_name : FileName → FileName → Bool
is_name a b = (a.extension == b.extension) && (a.stem == b.stem)

-- What the files hold.
abbrev pub Files : Type 0
Files = FileName → Option String

abbrev pub with_file : FileName → String → Files → Files
with_file name content files other = if is_name name other then some content else files other

abbrev pub without_file : FileName → Files → Files
without_file name files other = if is_name name other then none else files other

-- How a command of the shell ends.
pub record Ran : Type 0 where
  pub code : ℕ
  pub stdout : String
  pub stderr : String
  pub files : Files

abbrev pub Script : Type 0
Script = Files → Ran

-- The commands of openssl that are used, each with its arguments in the order of the scripts.
pub record Openssl : Type 0 where
  pub genrsa : (out : FileName) → Script
  pub req_x509 : (key out : FileName) (subject : String) → Script
  pub req_newkey : (out keyout : FileName) (subject : String) → Script
  pub x509_req : (csr ca ca_key out serial : FileName) → Script
  pub verify : (ca cert : FileName) → Script
  pub x509_text : FileName → Script

-- Two commands, one after the other: without `set -e`, the code is that of the second.
abbrev pub after : Ran → Ran → Ran
after first second = record second {
  stdout = first.stdout ^^ second.stdout;
  stderr = first.stderr ^^ second.stderr;
}

infixr 20 ◌then_run◌
abbrev pub ◌then_run◌ : Script → Script → Script
(first then_run second) files = after (first files) (second (first files).files)

-- `>&2 echo -n '…'; exit 1` and `echo '…'; exit 1`
abbrev pub refuse : String → Script
refuse message files = record { code = 1; stdout = ""; stderr = message; files = files }

abbrev pub refuse_on_stdout : String → Script
refuse_on_stdout message files = record {
  code = 1;
  stdout = message ^^ "\n";
  stderr = "";
  files = files;
}

-- `rm -rf`
abbrev pub rm_rf : FileName → Script
rm_rf name files = record { code = 0; stdout = ""; stderr = ""; files = without_file name files }

-- `[ -f '…' ]`
abbrev pub is_file : FileName → Files → Bool
is_file name files = elim (files name) [ none ↦ false | some content ↦ true ]

abbrev pub ca_key : FileName
ca_key = record { stem = "ca"; extension = "key.pem" }

abbrev pub ca_cert : FileName
ca_cert = record { stem = "ca"; extension = "cert.pem" }

abbrev pub ca_serial : FileName
ca_serial = record { stem = "ca"; extension = "seq" }

-- `params.fqdn.split('.')[0]`
unfoldable pub shortname_of : String → String
shortname_of fqdn = first_label fqdn

abbrev pub csr_of : String → FileName
csr_of shortname = record { stem = shortname; extension = "cert.csr" }

abbrev pub key_of : String → FileName
key_of shortname = record { stem = shortname; extension = "key.pem" }

abbrev pub cert_of : String → FileName
cert_of shortname = record { stem = shortname; extension = "cert.pem" }

-- What a command does: it prints what openssl printed on an error and exits, or prints a text on
-- success, or nothing.
pub data Shown : Type 0 where
  exits : (code : ℕ) (stderr : String) → Shown
  prints : (stdout : String) → Shown
  silent : Shown

-- `if (code !== 0)`, with the line breaks around what is printed.
unfoldable pub shown_of : Ran → (Ran → Shown) → Shown × Files
shown_of ran success = (
  if ran.code =ℕ 0 then success ran else exits ran.code ("\n" ^^ (ran.stderr ^^ "\n\n")),
  ran.files,
)

abbrev pub ca_subject : String
ca_subject = "/C=FR/O=Adaltas/L=Paris/CN=adaltas.com"

-- `path.resolve(params.dir, …)` of a name in the directory, and the text of `ca` on success.
abbrev pub path_in : String → FileName → String
path_in dir name = dir ^^ ("/" ^^ (name.stem ^^ ("." ^^ name.extension)))

unfoldable pub generated : String → String
generated dir =
    "Certificate files generated:\n* Key: \""
    ^^ (path_in dir ca_key
        ^^ ("\"\n* Certificate: \""
            ^^ (path_in dir ca_cert ^^ ("\"\n* Subject: \"" ^^ (ca_subject ^^ "\"")))))

module _ (openssl : Openssl) where
  unfoldable pub ca_script : Bool → Script
  ca_script is_dir files =
      if is_dir
      then if is_file ca_key files
        then refuse "CA Certiticate already exists" files
        else (openssl.genrsa ca_key then_run openssl.req_x509 ca_key ca_cert ca_subject) files
      else refuse "Output directory does not exist" files

  -- `masson pki ca`, for a directory `dir` that exists or not.
  unfoldable pub ca : String → Bool → Files → Shown × Files
  ca dir is_dir files =
      shown_of (ca_script is_dir files) λ ran. prints ("\n" ^^ (generated dir ^^ "\n\n"))

  -- The signing request, the signature, and the removal of the request.
  unfoldable pub sign_script : String → String → Script
  sign_script fqdn shortname =
      openssl.req_newkey (csr_of shortname) (key_of shortname)
        ("/C=FR/O=Adaltas/L=Paris/CN=" ^^ fqdn)
      then_run openssl.x509_req (csr_of shortname) ca_cert ca_key (cert_of shortname) ca_serial
      then_run rm_rf (csr_of shortname)

  unfoldable pub cert_script : String → Script
  cert_script fqdn files =
      if is_file ca_cert files
      then sign_script fqdn (shortname_of fqdn) files
      else refuse_on_stdout "Run `./generate.sh cacert` first." files

  -- `masson pki cert {fqdn}`
  unfoldable pub cert : String → Files → Shown × Files
  cert fqdn files = shown_of (cert_script fqdn files) λ ran. silent

  unfoldable pub check_script : String → Script
  check_script shortname files =
      if is_file ca_cert files
      then if is_file (cert_of shortname) files
        then openssl.verify ca_cert (cert_of shortname) files
        else refuse "Failed to locate the file certificate" files
      else refuse "Failed to locate the CA certificate" files

  -- `masson pki check {fqdn}`
  unfoldable pub check : String → Files → Shown × Files
  check fqdn files =
      shown_of (check_script (shortname_of fqdn) files)
        λ ran. prints ("\n" ^^ (shortname_of fqdn ^^ ".cert.pem: OK\n\n"))

  -- `masson pki cacert-view` and `masson pki cert-view {fqdn}`
  unfoldable pub view : FileName → Files → Shown × Files
  view name files =
      shown_of (openssl.x509_text name files) λ ran. prints ("\n" ^^ (ran.stdout ^^ "\n\n"))

  unfoldable pub cacert_view : Files → Shown × Files
  cacert_view = view ca_cert

  unfoldable pub cert_view : String → Files → Shown × Files
  cert_view fqdn = view (cert_of (shortname_of fqdn))
