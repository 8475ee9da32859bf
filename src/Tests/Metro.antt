-- ===== src/Tests/Metro.antt =====
-- metro-maps-cpp: messages as records, a request for /maps, and a database that connects.
use high_load_systems.Common.{
  exit_success, ◌≡◌, refl, Bool, true, false, List, [], ◌∷◌, Option, none, some, Bytes, ℕ, codes,
  decimal, length, pos,
}
use high_load_systems.MetroMaps.Http.{
  Status, status_ok, Field, content_type, server_name, content_length, Messages, handle_req,
}
use high_load_systems.MetroMaps.Http.Complete.{Reader, IsMessages, page, handle_req_complete}
use high_load_systems.MetroMaps.Main.{run_metro}
use high_load_systems.MetroMaps.Postgres.{
  polling_ok, polling_reading, new_database, DatabaseEvent, started_with, polled, queried,
  timer_rang, run_database,
}
use high_load_systems.MetroMaps.Postgres.Lost.{asked, run_database-never_ready}

record Request : Type 0 where
  asks_get : Bool
  path : Bytes

record Response : Type 0 where
  number : ℕ
  alive : Bool
  code : Status
  kind : Option Bytes
  name : Option Bytes
  size : Option Bytes
  text : Bytes

abbrev set_in : Field → Bytes → Response → Response
set_in content_type value r = record r { kind = some value }
set_in server_name value r = record r { name = some value }
set_in content_length value r = record r { size = some value }

abbrev read_from : Field → Response → Option Bytes
read_from content_type r = r.kind
read_from server_name r = r.name
read_from content_length r = r.size

abbrev messages : Messages Request Response
messages = record {
  version = λ request. 11;
  is_get = λ request. request.asks_get;
  target = λ request. request.path;
  new_response = record {
    number = 0;
    alive = true;
    code = status_ok;
    kind = none;
    name = none;
    size = none;
    text = [];
  };
  set_version = λ v r. record r { number = v };
  set_keep_alive = λ b r. record r { alive = b };
  set_result = λ s r. record r { code = s };
  set_field = set_in;
  set_body = λ b r. record r { text = b };
  body = λ r. r.text;
}

abbrev reader : Reader Response
reader = record {
  version_of = λ r. r.number;
  keeps_alive = λ r. r.alive;
  status_of = λ r. r.code;
  field_of = read_from;
}

unread_version : (f : Field) (v : Bytes) (r : Response) → (set_in f v r).number ≡ r.number
unread_version content_type v r = refl
unread_version server_name v r = refl
unread_version content_length v r = refl

unread_alive : (f : Field) (v : Bytes) (r : Response) → (set_in f v r).alive ≡ r.alive
unread_alive content_type v r = refl
unread_alive server_name v r = refl
unread_alive content_length v r = refl

unread_code : (f : Field) (v : Bytes) (r : Response) → (set_in f v r).code ≡ r.code
unread_code content_type v r = refl
unread_code server_name v r = refl
unread_code content_length v r = refl

unread_text : (f : Field) (v : Bytes) (r : Response) → (set_in f v r).text ≡ r.text
unread_text content_type v r = refl
unread_text server_name v r = refl
unread_text content_length v r = refl

read_back : (f : Field) (v : Bytes) (r : Response) → read_from f (set_in f v r) ≡ some v
read_back content_type v r = refl
read_back server_name v r = refl
read_back content_length v r = refl

messages-IsMessages : IsMessages messages reader
messages-IsMessages = record {
  version_set = λ v r. refl;
  version_keep_alive = λ b r. refl;
  version_result = λ s r. refl;
  version_field = unread_version;
  version_body = λ b r. refl;
  alive_set = λ b r. refl;
  alive_result = λ s r. refl;
  alive_field = unread_alive;
  alive_body = λ b r. refl;
  status_set = λ s r. refl;
  status_field = unread_code;
  status_body = λ b r. refl;
  field_set = read_back;
  body_set = λ b r. refl;
  body_field = unread_text;
}

abbrev for_maps : Request
for_maps = record { asks_get = true; path = codes "/maps" }

handle_req_complete_example :
    let r = handle_req messages for_maps messages.new_response in
    (reader.version_of r ≡ 11)
    × (reader.keeps_alive r ≡ false)
    × (reader.status_of r ≡ page messages reader messages-IsMessages true (codes "/maps"))
    × (text : Bytes) × (reader.field_of content_length r ≡ some text)
    × (decimal 0 text ≡ length (messages.body r))
handle_req_complete_example =
    handle_req_complete messages reader messages-IsMessages for_maps messages.new_response

abbrev attempt : List DatabaseEvent
attempt =
    started_with true false (pos 7)
    ∷ polled polling_reading (λ query. true)
    ∷ polled polling_ok (λ query. true)
    ∷ queried (codes "SELECT 1") true
    ∷ timer_rang false
    ∷ []

run_database-never_ready_example :
    let d = run_database attempt new_database in
    (d.conn_ready ≡ false) × (d.accepted_queries ≡ asked attempt)
run_database-never_ready_example = run_database-never_ready attempt

-- With one core no thread handles the accept.
one_core :
    run_metro messages 1 true
      (some (some (some (record { asks_get = true; path = codes "/maps" }))) ∷ [])
    ≡ ([], some exit_success)
unfolding run_metro
one_core = refl
