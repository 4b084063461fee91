-- ===== src/Commands/Pki/Laws.antt =====
-- legacy/masson/lib/commands/pki: what openssl is documented to do, and what the scripts then leave in the directory.
use Prim.Native.Char.{code}
use ryba.Base.{
  ℕ, zero, suc, ltb, ◌&&◌, ◌||◌, not, Bool, ◌⊎◌, none, String, ◌==◌, eq_refl, ◌≡◌, ◌≢◌, refl, sym,
  ◌∙◌, true, false, some, Option-cases, inl, inr,
}
use ryba.Text.{◌^^◌}
use ryba.Commands.Pki.{
  FileName, is_name, Files, with_file, without_file, Ran, Openssl, is_file, ca_key, ca_cert,
  ca_serial, csr_of, key_of, cert_of, shortname_of, silent, shown_of, ca_subject, ca_script, ca,
  sign_script, cert_script, cert,
}

-- A command that succeeds, with what it prints on stderr.
abbrev pub wrote : String → Files → Ran
wrote text files = record { code = 0; stdout = ""; stderr = text; files = files }

abbrev is_between : ℕ → ℕ → ℕ → Bool
is_between low high n = not (ltb n low) && not (ltb high n)

abbrev is_name_char : ℕ → Bool
is_name_char n = is_between 97 122 n || is_between 48 57 n || is_between 45 46 n

abbrev has_name_chars : ℕ → String → Bool
has_name_chars room String.[] = true
has_name_chars zero (String.◌∷◌ c s) = false
has_name_chars (suc room) (String.◌∷◌ c s) = is_name_char (code c) && has_name_chars room s

-- A common name that a request takes, and that is not the one of the authority: of 1 to 64 characters, each a
-- lower-case letter, a digit, a dash or a dot.
abbrev pub is_common_name : String → Bool
is_common_name name = has_name_chars 64 name && not (name == "") && not (name == "adaltas.com")

-- The commands write what they are asked for, where what they read is there: keys, a certificate that
-- goes with its key, requests with a new key, and certificates that are signed, which `verify` accepts
-- until they expire. This is meant for the default configuration and files that can be written, for the subject of
-- the authority and those of hosts with a common name as above, and for a file of serial numbers that is
-- not there or was written by openssl. The key of a request is new for any subject.
pub record IsOpenssl (openssl : Openssl) : Type 1 where
  pub IsKey : String → Type 0
  pub IsPair : (certificate key : String) → Type 0
  pub IsRequest : String → Type 0
  pub IsSerial : String → Type 0
  pub IsSigned : (authority certificate : String) → Type 0
  pub genrsa_writes :
      (out : FileName) (files : Files)
      → (k : String) × (text : String) × (openssl.genrsa out files
          ≡ wrote text (with_file out k files))
        × IsKey k
  pub req_x509_writes :
      (key out : FileName) (files : Files) (k : String)
      → files key ≡ some k
      → IsKey k
      → (c : String) × (text : String) × (openssl.req_x509 key out ca_subject files
          ≡ wrote text (with_file out c files))
        × IsPair c k
  pub req_newkey_writes :
      (out keyout : FileName) (name : String) (files : Files)
      → is_common_name name ≡ true
      → (r : String) × (k : String) × (text : String) × (openssl.req_newkey out keyout
            ("/C=FR/O=Adaltas/L=Paris/CN=" ^^ name)
            files
          ≡ wrote text (with_file keyout k (with_file out r files)))
        × IsRequest r
  pub req_newkey_replaces :
      (out keyout : FileName) (subject : String) (files : Files)
      → is_name out keyout ≡ false
      → (k : String) × ((openssl.req_newkey out keyout subject files).files keyout ≡ some k)
        × (files keyout ≢ some k)
  pub x509_req_writes :
      (csr authority key out serial : FileName) (files : Files) (r c k : String)
      → files csr ≡ some r
      → IsRequest r
      → files authority ≡ some c
      → files key ≡ some k
      → IsPair c k
      → (files serial ≡ none) ⊎ ((n : String) × (files serial ≡ some n) × IsSerial n)
      → (x : String) × (n : String) × (text : String) × (openssl.x509_req csr authority key out
            serial files
          ≡ wrote text (with_file out x (with_file serial n files)))
        × IsSigned c x
        × IsSerial n
  pub x509_req_keeps :
      (csr authority key out serial other : FileName) (files : Files)
      → is_name out other ≡ false
      → is_name serial other ≡ false
      → (openssl.x509_req csr authority key out serial files).files other ≡ files other
  pub verify_accepts :
      (authority certificate : FileName) (files : Files) (c x : String)
      → files authority ≡ some c
      → files certificate ≡ some x
      → IsSigned c x
      → (openssl.verify authority certificate files).code ≡ 0
  pub verify_keeps :
      (authority certificate : FileName) (files : Files)
      → (openssl.verify authority certificate files).files ≡ files
  pub x509_text_keeps :
      (name : FileName) (files : Files) → (openssl.x509_text name files).files ≡ files

-- A file that is there holds something.
pub is_file-content :
    (name : FileName) (files : Files)
    → is_file name files ≡ true
    → (content : String) × (files name ≡ some content)
is_file-content name files h = elim (Option-cases (files name)) [
  | inl missing ↦ absurd (cc (rw (missing, is_file) at h))
  | inr there ↦ there
]

pub is_file-of_content :
    (name : FileName) (files : Files) (content : String)
    → files name ≡ some content
    → is_file name files ≡ true
is_file-of_content name files content h = rw (h, is_file) refl

-- Where there is a certificate of the authority, `cert` prints nothing and exits with no error, whatever
-- the commands of openssl do: the code of the script is that of its last command, which removes the request.
pub cert-silent :
    (openssl : Openssl) (fqdn : String) (files : Files)
    → is_file ca_cert files ≡ true
    → (cert openssl fqdn files).0 ≡ silent
unfolding cert cert_script sign_script shown_of
cert-silent openssl fqdn files h = rw h refl

module _ (openssl : Openssl) (is_openssl : IsOpenssl openssl) where
  -- The file of serial numbers is not there, or openssl wrote it.
  abbrev pub IsNumbered : Files → Type 0
  IsNumbered files =
      (files ca_serial ≡ none) ⊎ ((n : String) × (files ca_serial ≡ some n) × is_openssl.IsSerial n)

  -- What `cert` leaves, for a host whose first label is not `ca`, with a common name that is taken.
  pub cert-files :
      (fqdn : String) (files : Files) (c k : String)
      → (shortname_of fqdn == "ca") ≡ false
      → files ca_cert ≡ some c
      → files ca_key ≡ some k
      → is_openssl.IsPair c k
      → is_common_name fqdn ≡ true
      → IsNumbered files
      → (r : String) × (own : String) × (n : String) × (x : String) × ((cert openssl fqdn files).1
          ≡ without_file (csr_of (shortname_of fqdn)) (
              with_file (cert_of (shortname_of fqdn)) x (
                with_file ca_serial n (
                  with_file
                    (key_of (shortname_of fqdn))
                    own
                    (with_file (csr_of (shortname_of fqdn)) r files)))))
        × is_openssl.IsSigned c x
        × is_openssl.IsSerial n
  unfolding cert cert_script sign_script shown_of
  cert-files fqdn files c k other authority key pair named numbered =
      let s = shortname_of fqdn in
      let (r, own, text, requested, is_request) =
        is_openssl.req_newkey_writes (csr_of s) (key_of s) fqdn files named in
      let files' = with_file (key_of s) own (with_file (csr_of s) r files) in
      let (x, n, text', signed, is_signed, is_serial) =
        is_openssl.x509_req_writes (csr_of s) ca_cert ca_key (cert_of s) ca_serial files' r c k
          (rw (eq_refl s) refl) is_request authority (rw other key) pair numbered in
      (
        r,
        own,
        n,
        x,
        rw (is_file-of_content ca_cert files c authority, requested, signed) refl,
        is_signed,
        is_serial,
      )

  -- What `ca` leaves where the directory exists and there is no key.
  pub ca-files :
      (dir : String) (files : Files)
      → is_file ca_key files ≡ false
      → (k : String) × (c : String) × ((ca openssl dir true files).1
          ≡ with_file ca_cert c (with_file ca_key k files))
        × is_openssl.IsPair c k
  unfolding ca ca_script shown_of
  ca-files dir files free =
      let (k, text, made, is_key) = is_openssl.genrsa_writes ca_key files in
      let (c, text', written, pair) =
        is_openssl.req_x509_writes ca_key ca_cert (with_file ca_key k files) k refl is_key in
      (k, c, rw (free, made, written) refl, pair)

  -- A host whose first label is `ca` takes the files of the authority: where openssl does as documented and
  -- the authority has a certificate and a key, after `cert` for such a host the file of that key no longer
  -- holds it.
  pub cert-ne-ca_key :
      (fqdn : String) (files : Files) (k : String)
      → shortname_of fqdn ≡ "ca"
      → is_file ca_cert files ≡ true
      → files ca_key ≡ some k
      → (cert openssl fqdn files).1 ca_key ≢ some k
  unfolding cert cert_script sign_script shown_of
  cert-ne-ca_key fqdn files k same authority key =
      let made =
        openssl.req_newkey (csr_of "ca") ca_key ("/C=FR/O=Adaltas/L=Paris/CN=" ^^ fqdn) files in
      let (own, now, fresh) =
        is_openssl.req_newkey_replaces (csr_of "ca") ca_key ("/C=FR/O=Adaltas/L=Paris/CN=" ^^ fqdn)
          files refl in
      let kept =
        is_openssl.x509_req_keeps (csr_of "ca") ca_cert ca_key (cert_of "ca") ca_serial ca_key
          made.files refl refl in
      let replaced : (cert openssl fqdn files).1 ca_key ≡ some own =
        rw (authority, same) (kept ∙ now) in
      λ e. fresh (key ∙ sym e ∙ replaced)
