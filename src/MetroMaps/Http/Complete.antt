-- ===== src/MetroMaps/Http/Complete.antt =====
-- main.cpp, Connection: what every response has.
use high_load_systems.Common.{
  ℕ, ◌≡◌, ◌∙◌, ap, sym, inl, inr, Bool, true, false, Bool-cases, ◌||◌, Option, some, if◌then◌else◌,
  Bytes, codes, bytes_eq, length, to_string, decimal, decimal-to_string,
}
use high_load_systems.MetroMaps.Http.{
  Status, status_ok, status_bad_request, status_not_found, Field, content_type, server_name,
  content_length, Messages, fill, handle_get, write_response, handle_req,
}

-- What can be read from a response.
pub record Reader (Res : Type 0) : Type 0 where
  pub version_of : Res → ℕ
  pub keeps_alive : Res → Bool
  pub status_of : Res → Status
  pub field_of : Field → Res → Option Bytes

-- The setters of http::response set what they name, and change nothing else that is read here.
pub record IsMessages {Req Res : Type 0} (http : Messages Req Res) (reader : Reader Res)
    : Type 0 where
  pub version_set : (v : ℕ) (r : Res) → reader.version_of (http.set_version v r) ≡ v
  pub version_keep_alive :
      (b : Bool) (r : Res) → reader.version_of (http.set_keep_alive b r) ≡ reader.version_of r
  pub version_result :
      (s : Status) (r : Res) → reader.version_of (http.set_result s r) ≡ reader.version_of r
  pub version_field :
      (f : Field) (v : Bytes) (r : Res)
      → reader.version_of (http.set_field f v r) ≡ reader.version_of r
  pub version_body :
      (b : Bytes) (r : Res) → reader.version_of (http.set_body b r) ≡ reader.version_of r
  pub alive_set : (b : Bool) (r : Res) → reader.keeps_alive (http.set_keep_alive b r) ≡ b
  pub alive_result :
      (s : Status) (r : Res) → reader.keeps_alive (http.set_result s r) ≡ reader.keeps_alive r
  pub alive_field :
      (f : Field) (v : Bytes) (r : Res)
      → reader.keeps_alive (http.set_field f v r) ≡ reader.keeps_alive r
  pub alive_body :
      (b : Bytes) (r : Res) → reader.keeps_alive (http.set_body b r) ≡ reader.keeps_alive r
  pub status_set : (s : Status) (r : Res) → reader.status_of (http.set_result s r) ≡ s
  pub status_field :
      (f : Field) (v : Bytes) (r : Res)
      → reader.status_of (http.set_field f v r) ≡ reader.status_of r
  pub status_body :
      (b : Bytes) (r : Res) → reader.status_of (http.set_body b r) ≡ reader.status_of r
  pub field_set :
      (f : Field) (v : Bytes) (r : Res) → reader.field_of f (http.set_field f v r) ≡ some v
  pub body_set : (b : Bytes) (r : Res) → http.body (http.set_body b r) ≡ b
  pub body_field :
      (f : Field) (v : Bytes) (r : Res) → http.body (http.set_field f v r) ≡ http.body r

module _ {Req Res : Type 0} (http : Messages Req Res) (reader : Reader Res)
    (laws : IsMessages http reader) where
  -- The page that a request asks for, as its status.
  abbrev pub page : Bool → Bytes → Status
  page false target = status_bad_request
  page true target =
      if bytes_eq target (codes "/main")
        || (bytes_eq target (codes "/maps") || bytes_eq target (codes "/maps/mstusfl"))
      then status_ok
      else status_not_found

  -- What `fill` and `write_response` make of a response.
  record Filled (version : ℕ) (alive : Bool) (code : Status) (r : Res) : Type 0 where
    pub version_kept : reader.version_of r ≡ version
    pub alive_kept : reader.keeps_alive r ≡ alive
    pub status_kept : reader.status_of r ≡ code

  fill-Filled :
      (code : Status) (kind text : Bytes) (r : Res)
      → Filled (reader.version_of r) (reader.keeps_alive r) code (fill http code kind text r)
  fill-Filled code kind text r = record {
    version_kept =
        laws.version_body text _
        ∙ laws.version_field content_type kind _
        ∙ laws.version_result code r;
    alive_kept =
        laws.alive_body text _ ∙ laws.alive_field content_type kind _ ∙ laws.alive_result code r;
    status_kept =
        laws.status_body text _ ∙ laws.status_field content_type kind _ ∙ laws.status_set code r;
  }

  handle_get-Filled :
      (request : Req) (r : Res)
      → Filled
          (reader.version_of r)
          (reader.keeps_alive r)
          (page true (http.target request))
          (handle_get http request r)
  unfolding handle_get
  handle_get-Filled request r = elim (Bool-cases (bytes_eq (http.target request) (codes "/main"))) [
    | inl main ↦ rw (handle_get, main) (fill-Filled status_ok _ _ r)
    | inr no_main ↦ elim (Bool-cases (bytes_eq (http.target request) (codes "/maps"))) [
      | inl maps ↦ rw (handle_get, no_main, maps) (fill-Filled status_ok _ _ r)
      | inr no_maps ↦ elim (Bool-cases (bytes_eq (http.target request) (codes "/maps/mstusfl"))) [
        | inl routes ↦ rw (handle_get, no_main, no_maps, routes) (fill-Filled status_ok _ _ r)
        | inr other ↦ rw (handle_get, no_main, no_maps, other) (fill-Filled status_not_found _ _ r)
      ]
    ]
  ]

  write_response-Filled :
      (v : ℕ) (alive : Bool) (code : Status) (r : Res)
      → Filled v alive code r
      → Filled v alive code (write_response http r)
  unfolding write_response
  write_response-Filled v alive code r f = record {
    version_kept =
        laws.version_field content_length _ _ ∙ laws.version_field server_name _ r ∙ f.version_kept;
    alive_kept =
        laws.alive_field content_length _ _ ∙ laws.alive_field server_name _ r ∙ f.alive_kept;
    status_kept =
        laws.status_field content_length _ _ ∙ laws.status_field server_name _ r ∙ f.status_kept;
  }

  write_response-length :
      (r : Res)
      → (text : Bytes) × (reader.field_of content_length (write_response http r) ≡ some text)
        × (decimal 0 text ≡ length (http.body (write_response http r)))
  unfolding write_response
  write_response-length r =
      let named = http.set_field server_name (codes "Boost.Asio HTTP Server") r in
      (
        to_string (length (http.body named)),
        laws.field_set content_length _ named,
        decimal-to_string (length (http.body named))
            ∙ ap length (sym (laws.body_field content_length _ named)),
      )

  Filled-replace :
      {v v' : ℕ} {alive alive' : Bool} {code : Status} {r : Res}
      → v ≡ v'
      → alive ≡ alive'
      → Filled v alive code r
      → Filled v' alive' code r
  Filled-replace e e' f = record {
    version_kept = f.version_kept ∙ e;
    alive_kept = f.alive_kept ∙ e';
    status_kept = f.status_kept;
  }

  handle_req-Filled :
      (request : Req) (r : Res)
      → Filled
          (http.version request)
          false
          (page (http.is_get request) (http.target request))
          (handle_req http request r)
  unfolding handle_req
  handle_req-Filled request r =
      let r' = http.set_keep_alive false (http.set_version (http.version request) r) in
      let e = laws.version_keep_alive false _ ∙ laws.version_set (http.version request) r in
      let e' = laws.alive_set false (http.set_version (http.version request) r) in
      elim (Bool-cases (http.is_get request)) [
        | inl get ↦
            rw (handle_req, get)
              (write_response-Filled _ _ _ _ (Filled-replace e e' (handle_get-Filled request r')))
        | inr other ↦
            rw (handle_req, other)
              (write_response-Filled _ _ _ _
                (Filled-replace e e' (fill-Filled status_bad_request _ _ r')))
      ]

  -- For messages whose setters set what they name and nothing else that is read: the response to
  -- any request has the version of the request, does not keep the connection, has the status of
  -- the page asked for (ok for GET of one of the three pages, not found for any other GET, bad
  -- request for any other method), and a Content-Length whose decimal value is the length of its
  -- body.
  pub handle_req_complete :
      (request : Req) (response : Res)
      → let r = handle_req http request response in
        (reader.version_of r ≡ http.version request)
        × (reader.keeps_alive r ≡ false)
        × (reader.status_of r ≡ page (http.is_get request) (http.target request))
        × (text : Bytes) × (reader.field_of content_length r ≡ some text)
        × (decimal 0 text ≡ length (http.body r))
  unfolding handle_req
  handle_req_complete request response =
      let f = handle_req-Filled request response in
      let (text, e, e') = write_response-length _ in
      (f.version_kept, f.alive_kept, f.status_kept, text, e, e')
