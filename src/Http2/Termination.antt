-- ===== src/Http2/Termination.antt =====
-- The nesting of `process_request` through server push in src/handlers/http2_handler.cpp: a page pushes
-- style sheets, data and other pages, which push in turn.
use web_server_http.Common.{
  ℕ, zero, suc, ◌≤◌, Bool, true, false, List, [], ◌∷◌, ◌≡◌, ◌≢◌, refl, ◌||◌, Bytes, codes, equal,
  Option, none, some, Option-cases, Bool-cases, inl, inr, if◌then◌else◌, arith,
}
use Prim.{tt}
use web_server_http.FileHandler.{FileSystem, file_exists, get_mime_type}
use web_server_http.Http2.Requests.{
  identify_push_resources, pushed_resources, push_resource, push_all, pushed_stream, next_id,
  process_request, answer, requested_file,
}
use web_server_http.Http2.State.{Http2Stream, Http2Handler, put_stream}

-- How deep the pushes of a page nest.
unfoldable pub depth : Bytes → ℕ
unfolding equal
depth path =
    if equal path (codes "/") || equal path (codes "/index.html")
    then 2
    else if equal path (codes "/dashboard.html") || equal path (codes "/demo.html")
    then 1
    else 0

deepest : (path : Bytes) → depth path ≤ 2
unfolding depth
deepest path = ground arith

-- All paths of a list nest less deep than `n`.
unfoldable pub Shallow : ℕ → List Bytes → Type 0
Shallow n [] = Unit
Shallow n (p ∷ ps) = (suc (depth p) ≤ n) × Shallow n ps

identify-Shallow : (path : Bytes) → Shallow (depth path) (identify_push_resources path)
unfolding Shallow identify_push_resources depth equal
identify-Shallow path =
    elim (Bool-cases (equal path (codes "/") || equal path (codes "/index.html"))) [
      | inl a ↦ rw (a, identify_push_resources, depth) (omega arith, (omega arith, tt))
      | inr a ↦ elim (Bool-cases (equal path (codes "/dashboard.html"))) [
        | inl b ↦ rw (a, b, identify_push_resources, depth) (omega arith, (omega arith, tt))
        | inr b ↦ elim (Bool-cases (equal path (codes "/demo.html"))) [
          | inl c ↦ rw (a, b, c, identify_push_resources, depth) (omega arith, tt)
          | inr c ↦ rw (a, b, c, identify_push_resources, depth) tt
        ]
      ]
    ]

Shallow-mono : (m n : ℕ) (ps : List Bytes) → m ≤ n → Shallow m ps → Shallow n ps
unfolding Shallow
Shallow-mono m n [] h s = tt
Shallow-mono m n (p ∷ ps) h (a, s) = (omega (arith, h, a), Shallow-mono m n ps h s)

Shallow-if : (b : Bool) (n : ℕ) (ps : List Bytes) → Shallow n ps → Shallow n (if b then ps else [])
unfolding Shallow
Shallow-if true n ps s = s
Shallow-if false n ps s = tt

abbrev Returns : Option Http2Handler → Type 0
Returns r = (h : Http2Handler) × (r ≡ some h)

Returns-if :
    (b : Bool) (r : Option Http2Handler) (h : Http2Handler)
    → Returns r
    → Returns (if b then r else some h)
Returns-if true r h k = k
Returns-if false r h k = (h, refl)

module _ (document_root : Bytes) (fs : FileSystem) where
  pushed-Shallow :
      (st : Http2Stream) → Shallow (depth st.path) (pushed_resources document_root fs st)
  unfolding pushed_resources Shallow
  pushed-Shallow st =
      let file = requested_file document_root st.path in
      Shallow-if (equal st.method (codes "GET")) (depth st.path) _ (
        Shallow-if (file_exists document_root fs file) (depth st.path) _ (
          Shallow-if st.push_enabled (depth st.path) _ (
            Shallow-if (equal (get_mime_type file) (codes "text/html")) (depth st.path) _
              (identify-Shallow st.path))))

  push_resource-Returns :
      (process : Http2Stream → Http2Handler → Option Http2Handler) (parent : ℕ) (path : Bytes)
      → ((st : Http2Stream) (h : Http2Handler) → st.path ≡ path → Returns (process st h))
      → (h : Http2Handler) → Returns (push_resource document_root fs process parent path h)
  unfolding push_resource
  push_resource-Returns process parent path f h =
      elim (Option-cases (next_id document_root fs h.promised_ids)) [
        | inl e ↦ rw (e, push_resource) (_, refl)
        | inr (id, e) ↦ rw (e, push_resource) (f (pushed_stream document_root fs id path) _ refl)
      ]

  push_all-Returns :
      (n : ℕ)
      → ((st : Http2Stream) (h : Http2Handler)
          → suc (depth st.path) ≤ n
          → Returns (process_request document_root fs n st h))
      → (parent : ℕ) (paths : List Bytes) (h : Http2Handler) → Shallow n paths
      → Returns (push_all document_root fs (process_request document_root fs n) parent paths h)
  unfolding push_all Shallow
  push_all-Returns n f parent [] h s = (h, refl)
  push_all-Returns n f parent (path ∷ paths) h s =
      let (h', e) =
        push_resource-Returns (process_request document_root fs n) parent path
          (λ st h' q. f st h' (rw q s.0)) h in
      rw e (push_all-Returns n f parent paths h' s.1)

  process_request-Returns :
      (fuel : ℕ) (st : Http2Stream) (h : Http2Handler)
      → suc (depth st.path) ≤ fuel
      → Returns (process_request document_root fs fuel st h)
  unfolding process_request
  process_request-Returns zero st h k = absurd (omega (arith, k))
  process_request-Returns (suc fuel) st h k =
      let pushes = pushed_resources document_root fs st in
      let (h', e) =
        push_all-Returns fuel (process_request-Returns fuel) st.stream_id pushes
          (put_stream (answer document_root fs st) h)
          (Shallow-mono (depth st.path) fuel pushes (omega (arith, k)) (pushed-Shallow st)) in
      Returns-if st.request_complete _ h (rw e (_, refl))

  -- Whatever the stream, its path and the files, `process_request` and all pushes that it leads to
  -- come to an end: three nested calls are enough.
  pub process_request_ends :
      (st : Http2Stream) (h : Http2Handler) → process_request document_root fs 3 st h ≢ none
  process_request_ends st h e =
      let (h', e') = process_request-Returns 3 st h (omega (arith, deepest st.path)) in absurd cc
