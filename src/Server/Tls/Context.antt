-- ===== src/Server/Tls/Context.antt =====
-- `enable_tls`, `initialize_ssl_context` and `cleanup_ssl_context` of src/core/server.cpp.
use web_server_http.Common.{
  ℕ, Bool, true, false, List, [], ◌∷◌, ◌||◌, ◌&&◌, Option, none, some, if◌then◌else◌, is_empty,
  Bytes,
}

-- The members for TLS; a context is known by a number.
pub record TlsState : Type 0 where
  pub tls_enabled : Bool
  pub ssl_ctx : Option ℕ
  pub cert_file : Bytes
  pub key_file : Bytes

-- What the calls return: the new context, `none` for null; whether the two files can be read; whether
-- OpenSSL loads them and finds that they match; whether it takes the list of protocols.
pub record Answers : Type 0 where
  pub new_context : Option ℕ
  pub cert_good : Bool
  pub key_good : Bool
  pub cert_loaded : Bool
  pub key_loaded : Bool
  pub key_matches : Bool
  pub protocols_set : Bool

abbrev pub held : Option ℕ → List ℕ
held none = []
held (some c) = c ∷ []

-- The contexts that are freed are the second result.
unfoldable pub cleanup_ssl_context : TlsState → TlsState × List ℕ
cleanup_ssl_context s = (record s { ssl_ctx = none }, held s.ssl_ctx)

-- The checks on the certificate and the key, which are skipped unless both names are given.
unfoldable pub certificate_ok : Answers → TlsState → Bool
certificate_ok a s =
    (is_empty s.cert_file || is_empty s.key_file)
    || (a.cert_good && (a.key_good && (a.cert_loaded && (a.key_loaded && a.key_matches))))

abbrev failing : TlsState × List ℕ → TlsState × List ℕ × Bool
failing (s, freed) = (s, freed, false)

unfoldable pub initialize_ssl_context : Answers → TlsState → TlsState × List ℕ × Bool
unfolding certificate_ok cleanup_ssl_context
initialize_ssl_context a s =
    let made = record s { ssl_ctx = a.new_context } in
    elim a.new_context [
      | none ↦ (made, [], false)
      | some c ↦
          if certificate_ok a s && a.protocols_set
          then (made, [], true)
          else failing (cleanup_ssl_context made)
    ]

abbrev settle : TlsState × List ℕ × Bool → TlsState × List ℕ
settle (s, freed, fine) = (if fine then s else record s { tls_enabled = false }, freed)

unfoldable pub enable_tls : Answers → Bool → Bytes → Bytes → TlsState → TlsState × List ℕ
unfolding initialize_ssl_context cleanup_ssl_context
enable_tls a enable cert key s =
    if enable
    then settle (
        initialize_ssl_context a
          (record s { tls_enabled = true; cert_file = cert; key_file = key }))
    else cleanup_ssl_context (record s { tls_enabled = false })
