-- ===== src/Mqtt/Tls.antt =====
-- internal/mqtt/tls.go: the settings of TLS from the names of files, and when they load.
use vpp_lab.Prelude.{
  String, Bool, true, false, Option, none, some, ◌≡◌, ◌≢◌, ◌==◌, ◌&&◌, ◌||◌, ◌⊎◌, inl, inr, not,
  refl, eq_iff, if◌then◌else◌, Bool-cases,
}

pub record TlsFiles : Type 0 where
  pub ca_file : String
  pub cert_file : String
  pub key_file : String
  pub insecure_skip_verify : Bool

-- The libraries: os.ReadFile, AppendCertsFromPEM on an empty pool, none where it finds no certificate, and
-- LoadX509KeyPair.
pub record Files (Pem Pool Certificate : Type 0) : Type 0 where
  pub read_file : String → Option Pem
  pub parse_pool : Pem → Option Pool
  pub load_pair : String → String → Option Certificate

pub data TlsError : Type 0 where
  no_ca_file : TlsError
  no_certificates : TlsError
  not_together : TlsError
  no_key_pair : TlsError

-- tls.Config, of TLS 1.2 or later.
pub record TlsConfig (Pool Certificate : Type 0) : Type 0 where
  pub insecure : Bool
  pub root_cas : Option Pool
  pub certificate : Option Certificate

module _ {Pem Pool Certificate : Type 0} (lib : Files Pem Pool Certificate) where
  unfoldable pub read_roots : Option Pem → TlsError ⊎ Option Pool
  read_roots none = inl no_ca_file
  read_roots (some pem) = elim (lib.parse_pool pem) [
    | none ↦ inl no_certificates
    | some pool ↦ inr (some pool)
  ]

  unfoldable pub load_roots : String → TlsError ⊎ Option Pool
  unfolding read_roots
  load_roots file = if file == "" then inr none else read_roots (lib.read_file file)

  unfoldable pub loaded_pair : Option Certificate → TlsError ⊎ Option Certificate
  loaded_pair none = inl no_key_pair
  loaded_pair (some cert) = inr (some cert)

  unfoldable pub load_certificate : String → String → TlsError ⊎ Option Certificate
  unfolding loaded_pair
  load_certificate cert key =
      if not (cert == "") || not (key == "")
      then if cert == "" || key == ""
        then inl not_together
        else loaded_pair (lib.load_pair cert key)
      else inr none

  unfoldable pub with_certificate :
      Bool
      → TlsError ⊎ Option Pool
      → TlsError ⊎ Option Certificate
      → TlsError ⊎ Option (TlsConfig Pool Certificate)
  with_certificate insecure (inl err) cert = inl err
  with_certificate insecure (inr roots) (inl err) = inl err
  with_certificate insecure (inr roots) (inr cert) =
      inr (some (record { insecure = insecure; root_cas = roots; certificate = cert }))

  -- No settings where no file is named and the check of the broker is not skipped.
  unfoldable pub new_tls_config : TlsFiles → TlsError ⊎ Option (TlsConfig Pool Certificate)
  unfolding load_roots load_certificate with_certificate
  new_tls_config files =
      if files.ca_file == ""
        && (files.cert_file == "" && (files.key_file == "" && not files.insecure_skip_verify))
      then inr none
      else with_certificate files.insecure_skip_verify (load_roots files.ca_file)
          (load_certificate files.cert_file files.key_file)

  -- The files that the settings name are there, and a certificate is named together with its key.
  pub data RootsLoad : String → Type 0 where
    no_roots : RootsLoad ""
    roots :
        {file : String} (pem : Pem) (pool : Pool)
        → lib.read_file file ≡ some pem
        → lib.parse_pool pem ≡ some pool
        → RootsLoad file

  pub data PairLoads : String → String → Type 0 where
    no_pair : PairLoads "" ""
    pair :
        {cert key : String} (certificate : Certificate)
        → cert ≢ ""
        → key ≢ ""
        → lib.load_pair cert key ≡ some certificate
        → PairLoads cert key

  load_roots-inr : (file : String) → RootsLoad file → (o : Option Pool) × (load_roots file ≡ inr o)
  unfolding load_roots read_roots
  load_roots-inr _ no_roots = (none, refl)
  load_roots-inr file (roots pem pool r p) = elim (Bool-cases (file == "")) [
    | inl e ↦ rw e (none, refl)
    | inr e ↦ rw e (rw (r, read_roots) (rw (p) (some pool, refl)))
  ]

  not_empty : (s : String) → s ≢ "" → (s == "") ≡ false
  not_empty s h = elim (Bool-cases (s == "")) [ inl e ↦ absurd (h ((eq_iff s "").0 e)) | inr e ↦ e ]

  load_certificate-inr :
      (cert key : String)
      → PairLoads cert key
      → (o : Option Certificate) × (load_certificate cert key ≡ inr o)
  unfolding load_certificate loaded_pair
  load_certificate-inr _ _ no_pair = (none, refl)
  load_certificate-inr cert key (pair certificate c k h) =
      rw (not_empty cert c) (rw (not_empty key k) (rw (h) (some certificate, refl)))

  -- NewTLSConfig returns no error where the file of the authorities, if one is named, has certificates, and
  -- the certificate and its key are both named, and load, or neither is.
  pub new_tls_config-inr :
      (files : TlsFiles)
      → RootsLoad files.ca_file
      → PairLoads files.cert_file files.key_file
      → (o : Option (TlsConfig Pool Certificate)) × (new_tls_config files ≡ inr o)
  unfolding new_tls_config with_certificate
  new_tls_config-inr files r p =
      let (pool, e) = load_roots-inr files.ca_file r in
      let (cert, f) = load_certificate-inr files.cert_file files.key_file p in
      either
        (files.ca_file == ""
          && (files.cert_file == "" && (files.key_file == "" && not files.insecure_skip_verify)))
        (rw e (rw f (_, refl)))
    where
      either :
          {o : TlsError ⊎ Option (TlsConfig Pool Certificate)} (b : Bool)
          → ((c : Option (TlsConfig Pool Certificate)) × (o ≡ inr c))
          → (c : Option (TlsConfig Pool Certificate)) × ((if b then inr none else o) ≡ inr c)
      either true h = (none, refl)
      either false h = h
