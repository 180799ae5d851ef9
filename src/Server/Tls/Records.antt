-- ===== src/Server/Tls/Records.antt =====
-- Reading and writing through OpenSSL in src/core/server.cpp.
use web_server_http.Common.{
  ℕ, ◌-◌, ◌*◌, true, false, List, [], ◌∷◌, ◌++◌, ◌&&◌, not, none, some, ltb, if◌then◌else◌, length,
  take, drop, Bytes, codes, contains, Try, returned, ◌>>=◌,
}
use web_server_http.Common.Dict.{lookup, bytes_key}
use web_server_http.Common.Numbers.{stoi}
use web_server_http.HttpRequest.{HttpRequest}
use web_server_http.Server.Io.{
  ReadEvent, received, select_timeout, try_again, ReadResult, complete, given_up, reading,
  buffer_size, SendResult, all_sent, aborted, sending,
}
use web_server_http.Server.Response.{blank_line}

-- The loop of `ssl_read_request_with_timeout`. `try_again` is a read that OpenSSL asks to repeat, and
-- `closed` and `recv_failed` are its real errors. There is no limit on the length.
unfoldable pub ssl_read_request_with_timeout : Bytes → List ReadEvent → ReadResult
ssl_read_request_with_timeout headers_data [] =
    if contains blank_line headers_data then complete headers_data else reading headers_data
ssl_read_request_with_timeout headers_data (e ∷ es) = elim (contains blank_line headers_data) [
  | true ↦ complete headers_data
  | false ↦ elim e [
    | received chunk ↦ ssl_read_request_with_timeout (headers_data ++ take buffer_size chunk) es
    | select_timeout ↦ ssl_read_request_with_timeout headers_data es
    | try_again ↦ ssl_read_request_with_timeout headers_data es
    | _ ↦ given_up
  ]
]

-- What `SSL_write` does: it takes bytes, asks to be called again, or fails.
pub data SslWrite : Type 0 where
  wrote : ℕ → SslWrite
  retry failed : SslWrite

-- The loop of `ssl_send_response` on what is left, with what went out.
unfoldable pub ssl_send_response : Bytes → List SslWrite → SendResult × Bytes
ssl_send_response [] es = (all_sent, [])
ssl_send_response (c ∷ left) [] = (sending, [])
ssl_send_response (c ∷ left) (wrote n ∷ es) =
    let (result, wire) = ssl_send_response (drop n (c ∷ left)) es in
    (result, take n (c ∷ left) ++ wire)
ssl_send_response (c ∷ left) (retry ∷ es) = ssl_send_response (c ∷ left) es
ssl_send_response (c ∷ left) (failed ∷ es) = (aborted, [])

-- What `SSL_read` does for a body: bytes, at most as many as are wanted.
pub data SslRead : Type 0 where
  read : Bytes → SslRead
  read_again read_failed : SslRead

-- The loop of `ssl_read_request`, with how much is wanted still. It ends with less at an error.
unfoldable pub read_body : ℕ → Bytes → List SslRead → Bytes
read_body wanted body [] = body
read_body wanted body (e ∷ es) = elim (ltb 0 wanted) [
  | false ↦ body
  | true ↦ elim e [
    | read chunk ↦ read_body (wanted - length (take wanted chunk)) (body ++ take wanted chunk) es
    | read_again ↦ read_body wanted body es
    | read_failed ↦ body
  ]
]

abbrev pub body_limit : ℕ
body_limit = 1024 * 1024

-- `ssl_read_request`; `stoi` is not guarded.
unfoldable pub ssl_read_request : HttpRequest → List SslRead → Try Bytes
ssl_read_request request es = elim (lookup (codes "content-length") request.headers) [
  | none ↦ returned []
  | some text ↦ stoi 10 text >>= λ value. returned (
      if not value.0 && (ltb 0 value.1 && ltb value.1 body_limit)
      then read_body value.1 [] es
      else [])
]
