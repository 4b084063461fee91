-- ===== src/Commands/Pki/Hosts.antt =====
-- The commands in any order: what holds of every directory that they make.
use ryba.Base.{
  String, ◌==◌, eq_refl, eq_iff, ◌≡◌, refl, sym, ap, ◌∙◌, subst, Bool, true, false, none, some,
  Bool-cases, inl, inr, arith,
}
use ryba.Text.{◌^^◌}
use ryba.Commands.Pki.{
  FileName, Files, with_file, without_file, Openssl, is_file, ca_key, ca_cert, ca_serial, csr_of,
  key_of, cert_of, shortname_of, prints, shown_of, ca_script, ca, cert_script, cert, check_script,
  check, view,
}
use ryba.Commands.Pki.Laws.{
  is_common_name, IsNumbered, IsOpenssl, is_file-content, is_file-of_content, cert-files, ca-files,
}

-- A first label that is not the name of the authority's files.
abbrev pub IsHost : String → Type 0
IsHost fqdn = (shortname_of fqdn == "ca") ≡ false

-- The directories that the commands make of an empty one, of hosts with a common name that is taken.
pub data Reach (openssl : Openssl) : Files → Type 0 where
  no_files : Reach openssl (λ name. none)
  after_ca :
      {files : Files} (dir : String) (is_dir : Bool)
      → Reach openssl files
      → Reach openssl (ca openssl dir is_dir files).1
  after_cert :
      {files : Files} (fqdn : String)
      → IsHost fqdn
      → is_common_name fqdn ≡ true
      → Reach openssl files
      → Reach openssl (cert openssl fqdn files).1
  after_check :
      {files : Files} (fqdn : String)
      → Reach openssl files
      → Reach openssl (check openssl fqdn files).1
  after_view :
      {files : Files} (name : FileName)
      → Reach openssl files
      → Reach openssl (view openssl name files).1

eq_swap : (s t : String) → (s == t) ≡ false → (t == s) ≡ false
eq_swap s t h = ground (arith, eq_iff s t, eq_iff t s)

module _ (openssl : Openssl) (is_openssl : IsOpenssl openssl) where
  -- The key of the authority goes with its certificate, which signed the certificate of each host.
  pub record IsValid (files : Files) : Type 0 where
    pub paired :
        (c : String)
        → files ca_cert ≡ some c
        → (k : String) × (files ca_key ≡ some k) × is_openssl.IsPair c k
    pub signed :
        (s x : String)
        → (s == "ca") ≡ false
        → files (cert_of s) ≡ some x
        → (c : String) × (files ca_cert ≡ some c) × is_openssl.IsSigned c x
    pub numbered : IsNumbered openssl is_openssl files

  ca_put-IsValid :
      (files : Files) (k c : String)
      → is_file ca_key files ≡ false
      → is_openssl.IsPair c k
      → IsValid files
      → IsValid (with_file ca_cert c (with_file ca_key k files))
  ca_put-IsValid files k c free pair valid = record {
    paired = λ c' h. (k, refl, subst (λ a. is_openssl.IsPair a k) (cc) pair);
    signed = λ s x host h.
        let (a, authority, by_a) = valid.signed s x host (rw (eq_swap s "ca" host) at h) in
        let (k', key, pair') = valid.paired a authority in
        absurd (cc (is_file-of_content ca_key files k' key));
    numbered = valid.numbered;
  }

  ca-IsValid :
      (dir : String) (is_dir : Bool) (files : Files)
      → IsValid files
      → IsValid (ca openssl dir is_dir files).1
  unfolding ca ca_script shown_of
  ca-IsValid dir false files valid = valid
  ca-IsValid dir true files valid = elim (Bool-cases (is_file ca_key files)) [
    | inl there ↦ rw there valid
    | inr free ↦
        let (k, c, same, pair) = ca-files openssl is_openssl dir files free in
        subst IsValid (sym same) (ca_put-IsValid files k c free pair valid)
  ]

  cert_put-IsValid :
      (s : String) (files : Files) (c r own n x : String)
      → (s == "ca") ≡ false
      → files ca_cert ≡ some c
      → is_openssl.IsSigned c x
      → is_openssl.IsSerial n
      → IsValid files
      → IsValid (
          without_file (csr_of s) (
            with_file
              (cert_of s)
              x
              (with_file ca_serial n (with_file (key_of s) own (with_file (csr_of s) r files)))))
  cert_put-IsValid s files c r own n x other authority is_signed is_serial valid = record {
    paired = λ c' h. rw other (valid.paired c' (rw other at h));
    signed = λ t y host h. elim (Bool-cases (s == t)) [
      | inl same ↦
          (c, rw other authority, subst (is_openssl.IsSigned c) (cc (rw same at h)) is_signed)
      | inr differs ↦ rw other (valid.signed t y host (rw differs at h))
    ];
    numbered = inr (n, refl, is_serial);
  }

  cert-IsValid :
      (fqdn : String) (files : Files)
      → IsHost fqdn
      → is_common_name fqdn ≡ true
      → IsValid files
      → IsValid (cert openssl fqdn files).1
  unfolding cert cert_script shown_of
  cert-IsValid fqdn files host named valid = elim (Bool-cases (is_file ca_cert files)) [
    | inr missing ↦ rw missing valid
    | inl there ↦
        let (c, authority) = is_file-content ca_cert files there in
        let (k, key, pair) = valid.paired c authority in
        let (r, own, n, x, same, is_signed, is_serial) =
          cert-files openssl is_openssl fqdn files c k host authority key pair named
            valid.numbered in
        subst IsValid (sym same) (
          cert_put-IsValid (shortname_of fqdn) files c r own n x host authority is_signed is_serial
            valid)
  ]

  check-files : (fqdn : String) (files : Files) → (check openssl fqdn files).1 ≡ files
  unfolding check check_script shown_of
  check-files fqdn files = elim (Bool-cases (is_file ca_cert files)) [
    | inr missing ↦ rw missing refl
    | inl there ↦ elim (Bool-cases (is_file (cert_of (shortname_of fqdn)) files)) [
      | inr none_there ↦ rw (there, none_there) refl
      | inl own ↦
          rw (there, own) (is_openssl.verify_keeps ca_cert (cert_of (shortname_of fqdn)) files)
    ]
  ]

  view-files : (name : FileName) (files : Files) → (view openssl name files).1 ≡ files
  unfolding view shown_of
  view-files name files = is_openssl.x509_text_keeps name files

  Reach-IsValid : (files : Files) → Reach openssl files → IsValid files
  Reach-IsValid _ no_files = record {
    paired = λ c h. cc;
    signed = λ s x host h. cc;
    numbered = inl refl;
  }
  Reach-IsValid _ (after_ca {files} dir is_dir r) =
      ca-IsValid dir is_dir files (Reach-IsValid files r)
  Reach-IsValid _ (after_cert {files} fqdn host named r) =
      cert-IsValid fqdn files host named (Reach-IsValid files r)
  Reach-IsValid _ (after_check {files} fqdn r) =
      subst IsValid (sym (check-files fqdn files)) (Reach-IsValid files r)
  Reach-IsValid _ (after_view {files} name r) =
      subst IsValid (sym (view-files name files)) (Reach-IsValid files r)

  -- After any sequence of the commands from an empty directory, with an openssl that does as
  -- documented, where `cert` was called only for names of 1 to 64 lower-case letters, digits,
  -- dashes and dots, other than the common name of the authority, whose first label is not `ca`:
  -- `check` accepts each host that has a certificate and whose first label is not `ca`, until it
  -- expires.
  pub check-Reach :
      (files : Files) (fqdn : String)
      → Reach openssl files
      → IsHost fqdn
      → is_file (cert_of (shortname_of fqdn)) files ≡ true
      → (check openssl fqdn files).0 ≡ prints ("\n" ^^ (shortname_of fqdn ^^ ".cert.pem: OK\n\n"))
  unfolding check check_script shown_of
  check-Reach files fqdn reach host there =
      let s = shortname_of fqdn in
      let (x, own) = is_file-content (cert_of s) files there in
      let (c, authority, is_signed) = (Reach-IsValid files reach).signed s x host own in
      rw
        (
          is_file-of_content ca_cert files c authority,
          there,
          is_openssl.verify_accepts ca_cert (cert_of s) files c x authority own is_signed,
        )
        refl

  -- After any such sequence, `cert` for a host with such a name, where the authority has its
  -- certificate, is followed by a `check` that accepts the host, until the certificates expire.
  pub check-cert :
      (files : Files) (fqdn : String)
      → Reach openssl files
      → IsHost fqdn
      → is_common_name fqdn ≡ true
      → is_file ca_cert files ≡ true
      → (check openssl fqdn (cert openssl fqdn files).1).0
        ≡ prints ("\n" ^^ (shortname_of fqdn ^^ ".cert.pem: OK\n\n"))
  check-cert files fqdn reach host named there =
      let s = shortname_of fqdn in
      let (c, authority) = is_file-content ca_cert files there in
      let valid = Reach-IsValid files reach in
      let (k, key, pair) = valid.paired c authority in
      let (r, own, n, x, same, is_signed, is_serial) =
        cert-files openssl is_openssl fqdn files c k host authority key pair named valid.numbered in
      check-Reach (cert openssl fqdn files).1 fqdn (after_cert fqdn host named reach) host (
        is_file-of_content (cert_of s) (cert openssl fqdn files).1 x
          (ap (λ f. f (cert_of s)) same ∙ rw (eq_refl s) refl))
