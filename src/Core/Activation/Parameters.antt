-- ===== src/Core/Activation/Parameters.antt =====
-- The parameters of a marble: parseSecrets, customizeParameters and setTTLSConfig of
-- coordinator/core/marbleapi.go.
use marblerun.Base.{
  Bytes, List, Map, Option, Result, Str, [], bytes_of, codes, false, get, if◌then◌else◌, is_empty,
  none, not, ok, put, some, true, ◌++◌, ◌∷◌,
}
use marblerun.Core.Certs.{sk_marble_root_cert}
use marblerun.Core.DryRun.{blank_secret}
use marblerun.Core.Getters.{get_certificate, get_tls}
use marblerun.Manifest.{File, Marble, Parameters, Secret, TlsTagEntry}
use marblerun.Manifest.Encode.{certificate_data, encode_pem, private_data}
use marblerun.Base.Pure.{◌>>=◌}
use marblerun.Services.{
  Services, ReservedSecrets, SecretsWrapper, FuncMap, ConnConf, TtlsConf, env_funcs, file_funcs,
}

-- rpc.Parameters
pub record RpcParameters : Type 0 where
  pub rpc_argv : List Str
  pub rpc_files : Map Bytes
  pub rpc_env : Map Bytes

-- `for k, v := range m` of a map that may be nil
abbrev pub entries_of : {A : Type 0} → Option (Map A) → Map A
entries_of none = []
entries_of (some m) = m

module _ (ext : Services) where
  -- parseSecrets, which a file or variable with NoTemplates goes without
  abbrev pub parse_secrets : FuncMap → SecretsWrapper → File → Result Str
  parse_secrets funcs secrets file =
      if file.no_templates
      then ok file.file_data
      else ext.execute_template file.file_data funcs secrets

  -- the loops of customizeParameters
  unfoldable pub customize : FuncMap → SecretsWrapper → Map File → Map Bytes → Result (Map Bytes)
  customize funcs secrets [] out = ok out
  customize funcs secrets ((name, file) ∷ rest) out = do
    value ← parse_secrets funcs secrets file
    customize funcs secrets rest (put out name value)

  -- customizeParameters
  unfoldable pub customize_parameters :
      Parameters → ReservedSecrets → Map Secret → Result RpcParameters
  unfolding customize
  customize_parameters params special user_secrets = do
    let wrapped : SecretsWrapper = record { marble_run = special; secrets = user_secrets }
    files ← customize file_funcs wrapped params.files []
    env ← customize env_funcs wrapped (entries_of params.env) []
    root_ca ← encode_pem ext.pem_encode (certificate_data special.root_ca.cert)
    marble_cert ← encode_pem ext.pem_encode (certificate_data special.marble_cert.cert)
    private ← encode_pem ext.pem_encode (private_data special.marble_cert.private_key)
    ok (record {
      rpc_argv = params.argv;
      rpc_files = files;
      rpc_env =
          put
            (put (put env ext.env_root_ca root_ca) ext.env_certificate_chain
              (marble_cert ++ root_ca))
            ext.env_private_key private;
    })

  -- the configuration of an incoming connection: a secret of its own, or the one of the marble
  unfoldable pub incoming_conf : Map Secret → ConnConf → TlsTagEntry → ConnConf
  incoming_conf user_secrets marble_conf entry =
      if is_empty entry.cert_name
      then record marble_conf { client_auth = some true }
      else let s : Secret = elim (get user_secrets entry.cert_name) [
        | none ↦ blank_secret
        | some s ↦ s
      ] in
        record marble_conf {
          clicrt = ext.pem_encode "CERTIFICATE" (bytes_of s.cert.raw);
          clikey = ext.pem_encode "PRIVATE KEY" (bytes_of s.private_key);
          client_auth = some (not entry.disable_client_auth);
        }

  add_outgoing : ConnConf → List TlsTagEntry → Map ConnConf → Map ConnConf
  add_outgoing conf [] m = m
  add_outgoing conf (entry ∷ entries) m =
      add_outgoing conf entries (put m (entry.addr ++ b':' ∷ entry.port) conf)

  add_incoming : Map Secret → ConnConf → List TlsTagEntry → Map ConnConf → Map ConnConf
  unfolding incoming_conf
  add_incoming user_secrets conf [] m = m
  add_incoming user_secrets conf (entry ∷ entries) m =
      add_incoming user_secrets conf entries
        (put m (b'*' ∷ b':' ∷ entry.port) (incoming_conf user_secrets conf entry))

  -- the loop over the TLS tags of a marble
  add_tags : Map Bytes → Map Secret → ConnConf → List Str → TtlsConf → Result TtlsConf
  unfolding add_incoming add_outgoing
  add_tags m user_secrets conf [] acc = ok acc
  add_tags m user_secrets conf (name ∷ names) acc = do
    tag ← get_tls ext m name
    add_tags m user_secrets conf names (record {
      outgoing_confs = add_outgoing conf tag.outgoing acc.outgoing_confs;
      incoming_confs = add_incoming user_secrets conf tag.incoming acc.incoming_confs;
    })

  -- setTTLSConfig on the parameters that its caller goes on to use: the map Env is shared with the
  -- caller, but a nil map is replaced in the copy of the marble alone
  unfoldable pub set_ttls_config :
      Map Bytes → Marble → ReservedSecrets → Map Secret → Result Parameters
  unfolding add_tags
  set_ttls_config m marble special user_secrets =
      if is_empty marble.tls then ok marble.parameters else (do
        root ← get_certificate ext m sk_marble_root_cert
        let conf : ConnConf = record {
          cacrt = ext.pem_encode "CERTIFICATE" (bytes_of root.raw);
          clicrt = ext.pem_encode "CERTIFICATE" (bytes_of special.marble_cert.cert.raw);
          clikey = ext.pem_encode "PRIVATE KEY" (bytes_of special.marble_cert.private_key);
          client_auth = none;
        }
        ttls ←
            add_tags m user_secrets conf marble.tls
              (record { outgoing_confs = []; incoming_confs = [] })
        json ← ext.ttls_json ttls
        ok (record marble.parameters {
          env = elim marble.parameters.env [
            | none ↦ none
            | some env ↦ some (
                put env (codes "MARBLE_TTLS_CONFIG")
                  (record { file_data = json; encoding = codes "string"; no_templates = false }))
          ];
        }))
