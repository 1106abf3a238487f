-- ===== src/Ssl/Plan.antt =====
-- The calls that the set-up of a TLS context makes, against a list of them.
use ian.Prelude.{
  ◌≡◌, Bool, true, false, none, some, List, [], ◌∷◌, ◌++◌, Bytes, if◌then◌else◌, arith,
}
use ian.Config.Value.{PropertyTree}
use ian.Config.Group.{ConfigGroup}
use ian.Ssl.{
  TlsCall, set_options, set_password_callback, use_certificate_chain_file, use_private_key_file,
  use_tmp_dh_file, load_verify_file, set_cipher_list, Note, dh_failed, ca_failed, ciphers_failed,
  setup_failed, Answers, TlsOptions, set_up, tls_options, init_ssl_context, untouched,
}

abbrev where_given : Bytes → TlsCall → List TlsCall
where_given [] c = []
where_given (b ∷ bs) c = c ∷ []

-- The calls, if none fails.
abbrev pub plan : TlsOptions → List TlsCall
plan o =
    set_options
    ∷ set_password_callback o.password
    ∷ use_certificate_chain_file o.cert_chain
    ∷ use_private_key_file o.priv_key
    ∷ (where_given o.dh (use_tmp_dh_file o.dh)
        ++ (where_given o.ca (load_verify_file o.ca) ++ set_cipher_list o.cipher_list ∷ []))

-- The note on a call that fails. The set-up ends at a call whose note is `setup_failed`.
abbrev pub note_on : TlsCall → Note
note_on (use_tmp_dh_file f) = dh_failed
note_on (load_verify_file f) = ca_failed
note_on (set_cipher_list l) = ciphers_failed
note_on _ = setup_failed

abbrev pub is_fatal : TlsCall → Bool
is_fatal c = elim (note_on c) [ setup_failed ↦ true | _ ↦ false ]

-- The calls up to the first that fails and is fatal.
abbrev pub up_to_fatal : Answers → List TlsCall → List TlsCall
up_to_fatal answers [] = []
up_to_fatal answers (c ∷ cs) =
    let rest = up_to_fatal answers cs in
    elim (answers c) [ none ↦ c ∷ rest | some e ↦ c ∷ (if is_fatal c then [] else rest) ]

abbrev pub notes_on : Answers → List TlsCall → List Note
notes_on answers [] = []
notes_on answers (c ∷ cs) =
    let rest = notes_on answers cs in elim (answers c) [ none ↦ rest | some e ↦ note_on c ∷ rest ]

abbrev Planned : Answers → TlsOptions → Type 0
Planned answers o =
    let s = set_up answers o untouched in
    (s.made ≡ up_to_fatal answers (plan o)) × (s.logged ≡ notes_on answers s.made)

set_up-Planned :
    (answers : Answers) (ca cert_chain priv_key dh password cipher_list : Bytes)
    → Planned answers (record {
      ca = ca;
      cert_chain = cert_chain;
      priv_key = priv_key;
      dh = dh;
      password = password;
      cipher_list = cipher_list;
    })
unfolding set_up
set_up-Planned answers [] cert_chain priv_key [] password cipher_list = ground arith
set_up-Planned answers [] cert_chain priv_key (d ∷ dh) password cipher_list = ground arith
set_up-Planned answers (c ∷ ca) cert_chain priv_key [] password cipher_list = ground arith
set_up-Planned answers (c ∷ ca) cert_chain priv_key (d ∷ dh) password cipher_list = ground arith

-- Whatever the calls answer, the set-up of a context that was not touched returns. It makes the calls of
-- the plan in their order, up to the first that fails among the options, the password, the certificate
-- chain and the private key: these come in front, then a file for Diffie-Hellman and one of authorities
-- where the configuration names them, then the ciphers. It logs the failures of the calls that it makes, in
-- their order, and nothing else.
pub init_ssl_context-plan :
    (P : PropertyTree) (answers : Answers) (t : P.Tree) (config : ConfigGroup)
    → let s = init_ssl_context P answers t config untouched in
      (s.made ≡ up_to_fatal answers (plan (tls_options P t config)))
      × (s.logged ≡ notes_on answers s.made)
unfolding init_ssl_context
init_ssl_context-plan P answers t config =
    let o = tls_options P t config in
    set_up-Planned answers o.ca o.cert_chain o.priv_key o.dh o.password o.cipher_list
