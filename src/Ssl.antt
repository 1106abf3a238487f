-- ===== src/Ssl.antt =====
-- The set-up of a TLS context: server/common/src/Ssl.cpp.
-- The calls of OpenSSL are seen in their order, and what they answer is an argument. A password is given to
-- the callback, which ignores its arguments.
use ian.Prelude.{
  Bool, true, false, not, Option, none, some, List, [], ◌∷◌, ◌++◌, Bytes, codes, if◌then◌else◌,
}
use ian.Error.{Status}
use ian.Config.Value.{PropertyTree}
use ian.Config.Group.{ConfigGroup, get_string_value}
pub mod Plan
mod Tests

pub data TlsCall : Type 0 where
  set_options : TlsCall
  set_password_callback : Bytes → TlsCall
  use_certificate_chain_file use_private_key_file : Bytes → TlsCall
  use_tmp_dh_file load_verify_file set_cipher_list : Bytes → TlsCall

-- What is written to the log.
pub data Note : Type 0 where
  dh_failed ca_failed ciphers_failed setup_failed : Note

-- The calls that were made, and the log.
pub record Setup : Type 0 where
  pub made : List TlsCall
  pub logged : List Note

abbrev pub untouched : Setup
untouched = record { made = []; logged = [] }

abbrev pub default_cert : Bytes
default_cert = codes "cert.pem"

abbrev pub default_cipher_list : Bytes
default_cipher_list =
    codes
      "ECDHE-ECDSA-AES256-GCM-SHA384:ECDHE-RSA-AES256-GCM-SHA384:ECDHE-ECDSA-CHACHA20-POLY1305:ECDHE-RSA-CHACHA20-POLY1305:ECDHE-ECDSA-AES128-GCM-SHA256:ECDHE-RSA-AES128-GCM-SHA256:ECDHE-ECDSA-AES256-SHA384:ECDHE-RSA-AES256-SHA384:ECDHE-ECDSA-AES128-SHA256:ECDHE-RSA-AES128-SHA256"

abbrev pub no_bytes : Bytes → Bool
no_bytes [] = true
no_bytes (c ∷ cs) = false

-- What a call answers: an error is thrown, or left in `ec`, or a result that is not 1.
abbrev pub Answers : Type 0
Answers = TlsCall → Status

abbrev pub call : TlsCall → Setup → Setup
call c s = record s { made = s.made ++ c ∷ [] }

abbrev pub note : Note → Setup → Setup
note n s = record s { logged = s.logged ++ n ∷ [] }

-- A call that throws where it fails, and one whose failure is logged, with what follows.
abbrev pub must : Answers → TlsCall → (Setup → Setup) → Setup → Setup
must answers c next s = elim (answers c) [
  | none ↦ next (call c s)
  | some e ↦ note setup_failed (call c s)
]

abbrev pub may : Answers → TlsCall → Note → Setup → Setup
may answers c n s = elim (answers c) [ none ↦ call c s | some e ↦ note n (call c s) ]

-- What the configuration says, with the defaults.
pub record TlsOptions : Type 0 where
  pub ca : Bytes
  pub cert_chain : Bytes
  pub priv_key : Bytes
  pub dh : Bytes
  pub password : Bytes
  pub cipher_list : Bytes

-- The body of the `try` block, with its handler.
unfoldable pub set_up : Answers → TlsOptions → Setup → Setup
set_up answers o = must answers set_options (
    must answers (set_password_callback o.password) (
      must answers (use_certificate_chain_file o.cert_chain) (
        must answers (use_private_key_file o.priv_key) λ s.
          let s' =
            if not (no_bytes o.dh) then may answers (use_tmp_dh_file o.dh) dh_failed s else s in
          let s'' =
            if not (no_bytes o.ca) then may answers (load_verify_file o.ca) ca_failed s' else s' in
          may answers (set_cipher_list o.cipher_list) ciphers_failed s'')))

module _ (P : PropertyTree) where
  open P use {Tree}

  abbrev pub tls_options : Tree → ConfigGroup → TlsOptions
  tls_options t config = record {
    ca = get_string_value P (codes "certificate_authority_file") [] t config;
    cert_chain = get_string_value P (codes "certificate_chain") default_cert t config;
    priv_key = get_string_value P (codes "private_key") default_cert t config;
    dh = get_string_value P (codes "dh") [] t config;
    password = get_string_value P (codes "private_key_password") [] t config;
    cipher_list = get_string_value P (codes "cipher_list") default_cipher_list t config;
  }

  unfoldable pub init_ssl_context : Answers → Tree → ConfigGroup → Setup → Setup
  unfolding set_up
  init_ssl_context answers t config s = set_up answers (tls_options t config) s
