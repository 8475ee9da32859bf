-- ===== src/MetroMaps/Http.antt =====
-- metro-maps-cpp/src/main.cpp: the classes Connection and Server. The messages of boost::beast are an
-- interface; what asio delivers is a parameter.
pub mod Complete
use high_load_systems.Common.{
  ℕ, Bool, true, false, List, [], ◌∷◌, Option, none, some, if◌then◌else◌, Bytes, codes, bytes_eq,
  length, to_string,
}

pub data Status : Type 0 where
  status_ok status_bad_request status_not_found : Status

-- The fields that the source sets.
pub data Field : Type 0 where
  content_type server_name content_length : Field

-- http::request and http::response.
pub record Messages (Req Res : Type 0) : Type 0 where
  pub version : Req → ℕ
  pub is_get : Req → Bool
  pub target : Req → Bytes
  pub new_response : Res
  pub set_version : ℕ → Res → Res
  pub set_keep_alive : Bool → Res → Res
  pub set_result : Status → Res → Res
  pub set_field : Field → Bytes → Res → Res
  pub set_body : Bytes → Res → Res
  pub body : Res → Bytes

module _ {Req Res : Type 0} (http : Messages Req Res) where
  -- A status, a content type and a body.
  abbrev pub fill : Status → Bytes → Bytes → Res → Res
  fill code kind text response =
      http.set_body text (http.set_field content_type kind (http.set_result code response))

  -- `Connection::handle_get`
  unfoldable pub handle_get : Req → Res → Res
  handle_get request response =
      if bytes_eq (http.target request) (codes "/main")
      then fill status_ok (codes "text/html")
          (codes
            "Hello from server!<br>Use it!<br><a href=\"http://127.0.0.1:8000/maps\">Click</a>")
          response
      else if bytes_eq (http.target request) (codes "/maps")
      then fill status_ok (codes "text/html") (codes "There is nothing(((") response
      else if bytes_eq (http.target request) (codes "/maps/mstusfl")
      then fill status_ok (codes "text/html") (codes "Well, there is the most used routes<br>1...")
          response
      else fill status_not_found (codes "text/html") (codes "404 Not Found") response

  -- `Connection::write_response`: what async_write gets.
  unfoldable pub write_response : Res → Res
  unfolding to_string
  write_response response =
      let response = http.set_field server_name (codes "Boost.Asio HTTP Server") response in
      http.set_field content_length (to_string (length (http.body response))) response

  -- `Connection::handle_req`
  unfoldable pub handle_req : Req → Res → Res
  unfolding handle_get write_response
  handle_req request response =
      let response = http.set_keep_alive false (http.set_version (http.version request) response) in
      write_response (
        if http.is_get request
        then handle_get request response
        else fill status_bad_request (codes "text/plain") (codes "Invalid method") response)

  -- `Connection::run` of a new connection: what is written, where async_read gets a request or fails.
  unfoldable pub run_connection : Option Req → Option Res
  unfolding handle_req
  run_connection none = none
  run_connection (some request) = some (handle_req request http.new_response)

  -- `Server::accept_conn`: a connection for each accept that succeeds, with what is read on it; none is
  -- an accept that fails, after which the server accepts again.
  unfoldable pub accept_conn : List (Option (Option Req)) → List (Option Res)
  unfolding run_connection
  accept_conn [] = []
  accept_conn (none ∷ accepts) = accept_conn accepts
  accept_conn (some received ∷ accepts) = run_connection received ∷ accept_conn accepts
