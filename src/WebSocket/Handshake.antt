-- ===== src/WebSocket/Handshake.antt =====
-- `is_websocket_request` and `generate_websocket_response`. OpenSSL's SHA-1 and base64 are arguments.
use web_server_http.Common.{
  Bool, false, List, [], ◌++◌, ◌&&◌, none, some, Bytes, codes, equal, contains, to_lower,
}
use web_server_http.Common.Dict.{lookup, bytes_key}

unfoldable pub is_websocket_request : List (Bytes × Bytes) → Bool
unfolding lookup equal contains to_lower
is_websocket_request headers = elim (lookup (codes "connection") headers) [
  | none ↦ false
  | some connection ↦ elim (lookup (codes "upgrade") headers) [
    | none ↦ false
    | some upgrade ↦ elim (lookup (codes "sec-websocket-key") headers) [
      | none ↦ false
      | some key ↦
          contains (codes "upgrade") (to_lower connection)
          && equal (to_lower upgrade) (codes "websocket")
    ]
  ]
]

abbrev pub magic_string : Bytes
magic_string = codes "258EAFA5-E914-47DA-95CA-C5AB0DC85B11"

module _ (base64_encode sha1_hash : Bytes → Bytes) where
  unfoldable pub accept_key : Bytes → Bytes
  accept_key key = base64_encode (sha1_hash (key ++ magic_string))

  -- Empty if there is no key.
  unfoldable pub generate_websocket_response : List (Bytes × Bytes) → Bytes
  unfolding lookup accept_key
  generate_websocket_response headers = elim (lookup (codes "sec-websocket-key") headers) [
    | none ↦ []
    | some key ↦
        codes "HTTP/1.1 101 Switching Protocols\r\n"
        ++ (codes "Upgrade: websocket\r\n"
            ++ (codes "Connection: Upgrade\r\n"
                ++ (codes "Sec-WebSocket-Accept: "
                    ++ (accept_key key ++ (codes "\r\n" ++ codes "\r\n")))))
  ]
