-- ===== src/Commands/Pki/Tests.antt =====
-- An openssl whose files say what they are, and an authority with one host.
use ryba.Base.{
  String, ◌==◌, eq_refl, ◌≡◌, ◌≢◌, refl, sym, ap, ◌∙◌, Bool, true, false, Option, none, some,
  Bool-cases, inl, inr, if◌then◌else◌,
}
use ryba.Text.{◌^^◌, split, first_label}
use ryba.Commands.Pki.{
  FileName, is_name, Files, with_file, without_file, Script, Openssl, is_file, ca_key, cert_of,
  shortname_of, prints, exits, silent, shown_of, ca_script, ca, sign_script, cert_script, cert,
  check_script, check, generated,
}
use ryba.Commands.Pki.Laws.{wrote, IsOpenssl, cert-silent, cert-ne-ca_key}
use ryba.Commands.Pki.Hosts.{Reach, no_files, after_ca, after_cert, check-Reach, check-cert}

abbrev failed : String → Script
failed text files = record { code = 1; stdout = ""; stderr = text; files = files }

-- A key that differs from the one before it.
abbrev new_key : Option String → String
new_key none = "first key"
new_key (some k) = if k == "first key" then "second key" else "first key"

abbrev root_of : String → String
root_of k = "root of " ^^ k

abbrev signed_by : String → String → String
signed_by c r = r ^^ (" signed by " ^^ c)

abbrev self_sign : FileName → Option String → Script
self_sign out none = failed "no key"
self_sign out (some k) = λ files. wrote "" (with_file out (root_of k) files)

abbrev sign : FileName → FileName → Option String → Option String → Option String → Script
sign out serial (some r) (some c) (some k) = λ files.
    if c == root_of k
    then wrote "" (with_file out (signed_by c r) (with_file serial "01" files))
    else failed "no match" files
sign out serial r c k = failed "unable to load"

abbrev openssl : Openssl
openssl = record {
  genrsa = λ out files. wrote "" (with_file out (new_key (files out)) files);
  req_x509 = λ key out subject files. self_sign out (files key) files;
  req_newkey = λ out keyout subject files.
      wrote "" (with_file keyout (new_key (files keyout)) (with_file out subject files));
  x509_req = λ csr authority key out serial files.
      sign out serial (files csr) (files authority) (files key) files;
  verify = λ authority certificate files. wrote "" files;
  x509_text = λ name files. wrote "" files;
}

abbrev is_first : Option String → Bool
is_first none = false
is_first (some k) = k == "first key"

new_key-ne : (o : Option String) → o ≢ some (new_key o)
new_key-ne none = λ e. cc
new_key-ne (some k) = elim (Bool-cases (k == "first key")) [
  | inl same ↦ rw same (λ e. let clash : true ≡ false = sym same ∙ ap is_first e in cc clash)
  | inr other ↦ rw other (λ e. let clash : false ≡ true = sym other ∙ ap is_first e in cc clash)
]

sign-keeps :
    (out serial other : FileName) (files : Files) (r c k : Option String)
    → is_name out other ≡ false
    → is_name serial other ≡ false
    → (sign out serial r c k files).files other ≡ files other
sign-keeps out serial other files none c k h l = refl
sign-keeps out serial other files (some r) none k h l = refl
sign-keeps out serial other files (some r) (some c) none h l = refl
sign-keeps out serial other files (some r) (some c) (some k) h l =
    elim (Bool-cases (c == root_of k)) [
      | inl same ↦ rw (same, h, l) refl
      | inr differs ↦ rw differs refl
    ]

openssl-IsOpenssl : IsOpenssl openssl
openssl-IsOpenssl = record {
  IsKey = λ k. Unit;
  IsPair = λ c k. c ≡ root_of k;
  IsRequest = λ r. Unit;
  IsSerial = λ n. Unit;
  IsSigned = λ c x. (r : String) × (x ≡ signed_by c r);
  genrsa_writes = λ out files. (new_key (files out), "", refl, tt);
  req_x509_writes = λ key out files k h is_key. (root_of k, "", rw h refl, refl);
  req_newkey_writes = λ out keyout name files named.
      ("/C=FR/O=Adaltas/L=Paris/CN=" ^^ name, new_key (files keyout), "", refl, tt);
  req_newkey_replaces = λ out keyout subject files other. (
    new_key (files keyout),
    rw (eq_refl keyout.extension, eq_refl keyout.stem) refl,
    new_key-ne (files keyout),
  );
  x509_req_writes = λ csr authority key out serial files r c k h is_request g l pair numbered.
      (signed_by c r, "01", "", rw (h, g, l) (rw (pair, eq_refl (root_of k)) refl), (r, refl), tt);
  x509_req_keeps = λ csr authority key out serial other files h l.
      sign-keeps out serial other files (files csr) (files authority) (files key) h l;
  verify_accepts = λ authority certificate files c x h l is_signed. refl;
  verify_keeps = λ authority certificate files. refl;
  x509_text_keeps = λ name files. refl;
}

abbrev empty : Files
empty name = none

-- The authority of a directory, and then a host.
abbrev with_ca : Files
with_ca = (ca openssl "/certs" true empty).1

abbrev host : String
host = "master1.ryba"

abbrev with_host : Files
with_host = (cert openssl host with_ca).1

scripts : Unit {0}
unfolding ca ca_script cert cert_script sign_script check check_script shown_of shortname_of
    first_label generated split
scripts = tt

ca-again : (ca openssl "/certs" true with_ca).0 ≡ exits 1 "\nCA Certiticate already exists\n\n"
unfolding scripts
ca-again = refl

check-missing :
    (check openssl host with_ca).0 ≡ exits 1 "\nFailed to locate the file certificate\n\n"
unfolding scripts
check-missing = refl

-- The message of `cert` without an authority is on stdout, and is not printed.
cert-missing : (cert openssl host empty).0 ≡ exits 1 "\n\n\n"
unfolding scripts
cert-missing = refl

with_ca-Reach : Reach openssl with_ca
with_ca-Reach = after_ca "/certs" true no_files

check-Reach_example : (check openssl host with_host).0 ≡ prints "\nmaster1.cert.pem: OK\n\n"
unfolding scripts
check-Reach_example =
    check-Reach openssl openssl-IsOpenssl with_host host (after_cert host refl refl with_ca-Reach)
      refl refl

check-cert_example :
    (check openssl host (cert openssl host with_ca).1).0 ≡ prints "\nmaster1.cert.pem: OK\n\n"
unfolding scripts
check-cert_example = check-cert openssl openssl-IsOpenssl with_ca host with_ca-Reach refl refl refl

-- A certificate of the authority is there without its key, so that nothing is signed.
abbrev without_key : Files
without_key = without_file ca_key with_ca

not_signed : is_file (cert_of "master1") (cert openssl host without_key).1 ≡ false
unfolding scripts
not_signed = refl

cert-silent_example : (cert openssl host without_key).0 ≡ silent
unfolding scripts
cert-silent_example = cert-silent openssl host without_key refl

cert-ne-ca_key_example : (cert openssl "ca.ryba" with_ca).1 ca_key ≢ some "first key"
unfolding scripts
cert-ne-ca_key_example =
    cert-ne-ca_key openssl openssl-IsOpenssl "ca.ryba" with_ca "first key" refl refl refl
