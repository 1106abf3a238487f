-- ===== src/Ssl/Tests.antt =====
-- The set-up of a context with a file for Diffie-Hellman, where that file and the ciphers are refused.
use ian.Prelude.{◌≡◌, refl, none, some, [], ◌∷◌, Bytes, codes}
use ian.Error.{other}
use ian.Config.Value.{PropertyTree}
use ian.Config.Group.{ConfigGroup}
use ian.Ssl.{
  set_options, set_password_callback, use_certificate_chain_file, use_private_key_file,
  use_tmp_dh_file, set_cipher_list, dh_failed, ciphers_failed, setup_failed, Answers, tls_options,
  init_ssl_context, untouched,
}
use ian.Ssl.Plan.{plan, up_to_fatal, notes_on, init_ssl_context-plan}

-- A tree that holds one text, at every path.
abbrev texts : PropertyTree
texts = record {
  Tree = Bytes;
  empty = [];
  get_bool = λ t path d. d;
  get_string = λ t path d. t;
  get_int = λ t path d. d;
  child_keys = λ t path. [];
}

abbrev config : ConfigGroup
config = record { path = codes "front.ssl" }

abbrev refuses : Answers
refuses (use_tmp_dh_file f) = some (other 2)
refuses (set_cipher_list l) = some (other 3)
refuses _ = none

abbrev has_no_key : Answers
has_no_key (use_private_key_file f) = some (other 2)
has_no_key _ = none

init_ssl_context-plan_example :
    let s = init_ssl_context texts refuses (codes "x.pem") config untouched in
    (s.made ≡ up_to_fatal refuses (plan (tls_options texts (codes "x.pem") config)))
    × (s.logged ≡ notes_on refuses s.made)
init_ssl_context-plan_example = init_ssl_context-plan texts refuses (codes "x.pem") config

refused :
    (init_ssl_context texts refuses (codes "x.pem") config untouched).logged
    ≡ dh_failed ∷ ciphers_failed ∷ []
unfolding init_ssl_context
refused = refl

-- Without a key the set-up goes no further.
no_key : init_ssl_context texts has_no_key (codes "x.pem") config untouched ≡ record {
  made =
      set_options
      ∷ set_password_callback (codes "x.pem")
      ∷ use_certificate_chain_file (codes "x.pem")
      ∷ use_private_key_file (codes "x.pem")
      ∷ [];
  logged = setup_failed ∷ [];
}
unfolding init_ssl_context
no_key = refl
