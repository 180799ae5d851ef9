-- ===== src/Server/Alpn.antt =====
-- `alpn_select_callback` of server.cpp: the choice among the protocols that a client offers. The
-- index `i` is what is left of the list.
use web_server_http.Common.{
  ℕ, zero, suc, Bool, true, false, [], ◌∷◌, ◌&&◌, Option, none, some, ltb, if◌then◌else◌, length,
  take, drop, Bytes, codes, is_prefix,
}

-- The two protocols that the server knows, in wire form.
abbrev pub h2 : Bytes
h2 = 2 ∷ codes "h2"

abbrev pub http11 : Bytes
http11 = 8 ∷ codes "http/1.1"

-- One of the two loops: the name of `protocol` in the list, if it is there. Each round takes at least
-- one byte, so as many rounds as bytes are enough; `none` is the loop's end.
unfoldable pub find_protocol : ℕ → Bytes → Bytes → Option Bytes
unfolding is_prefix
find_protocol zero protocol offered = none
find_protocol (suc fuel) protocol [] = none
find_protocol (suc fuel) protocol (proto_len ∷ rest) =
    let found = is_prefix protocol (proto_len ∷ rest) in
    elim (ltb (length rest) proto_len) [
      | true ↦ none
      | false ↦ elim (is_prefix (proto_len ∷ []) protocol && found) [
        | true ↦ some (take proto_len rest)
        | false ↦ find_protocol fuel protocol (drop proto_len rest)
      ]
    ]

-- The protocol chosen; `none` is the fatal alert.
unfoldable pub alpn_select_callback : Bool → Bytes → Option Bytes
unfolding find_protocol
alpn_select_callback http2_enabled offered =
    let first : Option Bytes =
      if http2_enabled then find_protocol (length offered) h2 offered else none in
    elim first [ some p ↦ some p | none ↦ find_protocol (length offered) http11 offered ]
