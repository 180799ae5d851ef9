-- ===== src/Server/Tls/Transfer.antt =====
-- Reading and writing over TLS in src/core/server.cpp against the functions without TLS.
use web_server_http.Common.{
  ℕ, ◌+◌, ◌-◌, ◌≤◌, ◌<◌, Bool, List, [], ◌∷◌, ◌++◌, ◌≡◌, refl, ltb, length, take, drop, Bytes,
  codes, contains, Bool-cases, inl, inr, arith, length-append, length-take, returned, some,
}
use web_server_http.Common.Dict.{lookup, bytes_key}
use web_server_http.Common.Numbers.{stoi}
use web_server_http.HttpRequest.{HttpRequest}
use web_server_http.Server.Io.{
  ReadEvent, received, select_timeout, try_again, complete, header_limit, buffer_size,
  read_request_with_timeout, SendEvent, sent, send_failed, send_left,
}
use web_server_http.Server.Response.{blank_line}
use web_server_http.Server.Tls.Records.{
  ssl_read_request_with_timeout, SslWrite, wrote, retry, failed, ssl_send_response, SslRead, read,
  read_again, read_failed, read_body, ssl_read_request, body_limit,
}

-- Over the same events, a text that is read without TLS is read with TLS as well, and is the same.
pub ssl_read_request_extends :
    (start : Bytes) (es : List ReadEvent) (text : Bytes)
    → read_request_with_timeout start es ≡ complete text
    → ssl_read_request_with_timeout start es ≡ complete text
unfolding read_request_with_timeout ssl_read_request_with_timeout
ssl_read_request_extends start [] text e = e
ssl_read_request_extends start (received chunk ∷ es) text e =
    let longer = start ++ take buffer_size chunk in
    elim (Bool-cases (contains blank_line start)) [
      | inl c ↦ rw (c, ssl_read_request_with_timeout) (rw (c, read_request_with_timeout) at e)
      | inr c ↦ elim (Bool-cases (ltb header_limit (length longer))) [
        | inl q ↦ absurd (ground (arith, e, c, q))
        | inr q ↦
            rw (c, ssl_read_request_with_timeout)
              (ssl_read_request_extends longer es text (rw (c, q, read_request_with_timeout) at e))
      ]
    ]
ssl_read_request_extends start (select_timeout ∷ es) text e =
    ground (arith, e, ssl_read_request_extends start es text)
ssl_read_request_extends start (try_again ∷ es) text e =
    ground (arith, e, ssl_read_request_extends start es text)
ssl_read_request_extends start (x ∷ es) text e = ground (arith, e)

-- The sends that are left when the calls that OpenSSL asks to repeat are taken out.
abbrev pub without_retries : List SslWrite → List SendEvent
without_retries [] = []
without_retries (wrote n ∷ es) = sent n ∷ without_retries es
without_retries (retry ∷ es) = without_retries es
without_retries (failed ∷ es) = send_failed ∷ without_retries es

-- `ssl_send_response` does what the loop of `send_response_safe` does, the repeated calls aside: the
-- same result and the same bytes in the same order.
pub ssl_send_response-without_retries :
    (response : Bytes) (es : List SslWrite)
    → ssl_send_response response es ≡ send_left response (without_retries es)
unfolding ssl_send_response send_left
ssl_send_response-without_retries [] es = refl
ssl_send_response-without_retries (c ∷ left) [] = refl
ssl_send_response-without_retries (c ∷ left) (wrote n ∷ es) =
    rw (ssl_send_response-without_retries (drop n (c ∷ left)) es) refl
ssl_send_response-without_retries (c ∷ left) (retry ∷ es) =
    ssl_send_response-without_retries (c ∷ left) es
ssl_send_response-without_retries (c ∷ left) (failed ∷ es) = refl

length-read_body :
    (wanted : ℕ) (body : Bytes) (es : List SslRead)
    → length (read_body wanted body es) ≤ length body + wanted
unfolding read_body
length-read_body wanted body [] = omega arith
length-read_body wanted body (read chunk ∷ es) =
    let piece = take wanted chunk in
    ground (
      arith,
      length-read_body (wanted - length piece) (body ++ piece) es,
      length-append body piece,
      length-take wanted chunk,
    )
length-read_body wanted body (read_again ∷ es) = ground (arith, length-read_body wanted body es)
length-read_body wanted body (read_failed ∷ es) = ground arith

-- A body that `ssl_read_request` returns is shorter than a mebibyte, and no longer than the number that
-- the request's Content-Length gives.
pub ssl_read_request_bounded :
    (request : HttpRequest) (es : List SslRead) (text body : Bytes) (negative : Bool) (n : ℕ)
    → lookup (codes "content-length") request.headers ≡ some text
    → stoi 10 text ≡ returned (negative, n)
    → ssl_read_request request es ≡ returned body
    → (length body ≤ n) × (length body < body_limit)
unfolding ssl_read_request
ssl_read_request_bounded request es text body negative n h k e =
    let got = rw (h, k, ssl_read_request) at e in ground (arith, got, length-read_body n [] es)
