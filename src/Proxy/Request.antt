-- ===== src/Proxy/Request.antt =====
-- caching_http_proxy/proxy/proxy.[ch]: `process_request` up to the cache, that is reading and checking the
-- request, and the reading of the head of a response.
pub mod Bounds
use os2_labs.Common.{
  ℕ, ◌+◌, ◌-◌, Bool, true, false, not, ◌&&◌, ◌||◌, Option, none, some, List, [], ◌∷◌, ◌++◌, ◌==◌,
  leb, ltb, if◌then◌else◌, take, length,
}
use os2_labs.Proxy.Text.{c_str, starts_with, header_end}
use os2_labs.Proxy.Headers.{Header, find_header}
use os2_labs.Proxy.Session.{RecvEvent, received, recv_interrupted, recv_failed}
use os2_labs.Proxy.Relay.{buffer_size}

abbrev pub max_url_name_len : ℕ
max_url_name_len = 2048

abbrev pub max_hostname_len : ℕ
max_hostname_len = 1024

pub record Request : Type 0 where
  pub method : List ℕ
  pub path : List ℕ
  pub headers : List Header
  pub minor_version : ℕ

-- The answers of `phr_parse_request`: a positive number, -1 and -2.
pub data ParsedRequest : Type 0 where
  parsed : Request → ParsedRequest
  malformed incomplete : ParsedRequest

pub data ReadRequest : Type 0 where
  got_request : Request → (buffer : List ℕ) → ReadRequest
  no_request : ReadRequest

-- The parser gets the buffer and how long it was before. The events are those of a connection that comes
-- to an end: after them `recv` fails.
unfoldable pub read_request :
    (phr_parse_request : List ℕ → ℕ → ParsedRequest)
    → List RecvEvent
    → (buffer : List ℕ) → ReadRequest
read_request phr_parse_request [] buffer = no_request
read_request phr_parse_request (recv_failed ∷ es) buffer = no_request
read_request phr_parse_request (recv_interrupted ∷ es) buffer =
    read_request phr_parse_request es buffer
read_request phr_parse_request (received [] ∷ es) buffer = no_request
read_request phr_parse_request (received (b ∷ bs) ∷ es) buffer =
    let buffer' = buffer ++ take (buffer_size - length buffer) (b ∷ bs) in
    elim (phr_parse_request buffer' (length buffer)) [
      | parsed request ↦ got_request request buffer'
      | malformed ↦ no_request
      | incomplete ↦
          if length buffer' == buffer_size
          then no_request
          else read_request phr_parse_request es buffer'
    ]

pub data Checked : Type 0 where
  accepted : (hostname url : List ℕ) → Checked
  rejected : Checked
  overrun : Checked

-- "GET" and "Host"
abbrev pub get : List ℕ
get = 71 ∷ 69 ∷ 84 ∷ []

abbrev pub host : List ℕ
host = 72 ∷ 111 ∷ 115 ∷ 116 ∷ []

-- The copies of the host and of the path, each with a zero byte behind it. `overrun`: there is no host
-- header, or one of the two arrays is too short.
unfoldable pub copy_names : Request → Option Header → Checked
unfolding c_str
copy_names request none = overrun
copy_names request (some host_header) =
    if leb max_hostname_len (length host_header.value)
    then overrun
    else if ltb max_url_name_len (length host_header.value + length request.path)
    then rejected
    else if leb max_url_name_len (length request.path)
    then overrun
    else accepted (c_str host_header.value) (c_str request.path)

unfoldable pub check_request : Request → Checked
unfolding starts_with find_header copy_names
check_request request =
    if not (starts_with request.method get)
    then rejected
    else if not (request.minor_version == 0) && not (request.minor_version == 1)
    then rejected
    else copy_names request (find_header request.headers host)

pub data Head : Type 0 where
  head : (buffer : List ℕ) → (header_len : ℕ) → List RecvEvent → Head
  no_head : Head

-- The loop that reads the head of the response into the buffer, which keeps room for a zero byte.
unfoldable pub read_head : List RecvEvent → (buffer : List ℕ) → Head
unfolding header_end
read_head [] buffer = no_head
read_head (recv_failed ∷ es) buffer = no_head
read_head (recv_interrupted ∷ es) buffer = no_head
read_head (received [] ∷ es) buffer = no_head
read_head (received (b ∷ bs) ∷ es) buffer =
    let buffer' = buffer ++ take (buffer_size - length buffer - 1) (b ∷ bs) in
    if leb (buffer_size - 1) (length buffer) then no_head else elim (header_end buffer') [
      | none ↦ read_head es buffer'
      | some header_len ↦ head buffer' header_len es
    ]
