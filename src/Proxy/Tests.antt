-- ===== src/Proxy/Tests.antt =====
-- Concrete connections and requests, with the theorems of the proxy at them.
use os2_labs.Common.{
  ℕ, ◌≤◌, ◌<◌, ◌≡◌, refl, ◌⊎◌, inl, inr, true, false, none, some, List, [], ◌∷◌, ◌++◌, ◌∙◌, arith,
  ℤ, pos, negsuc, Option, sym, take,
}
use os2_labs.Cache.Entry.{Entry, entry_incomplete, entry_complete}
use os2_labs.Cache.Entry.Wait.{Seen}
use os2_labs.Cache.Store.{new_cache, put_entry}
use os2_labs.Cache.Store.Life.{new_cache-IsCache}
use os2_labs.Proxy.Headers.{Header, content_length, find_header, get_content_len}
use os2_labs.Proxy.Headers.Decimal.{place_value, Digits, get_content_len-place_value}
use os2_labs.Proxy.Text.{llong_max, is_digit, header_end}
use os2_labs.Proxy.Connect.{
  Attempt, refused, connected, resolve_and_connect, refused_fds, first_connected, last_fd,
  resolve_and_connect-closed,
}
use os2_labs.Proxy.Send.{SendEvent, sent, send_interrupted, send_failed}
use os2_labs.Proxy.Cached.{Reading, handle_cached_request}
use os2_labs.Proxy.Cached.Pages.{Reads, Serves, handle_cached_request-Serves}
use os2_labs.Proxy.Session.{RecvEvent, received, Session}
use os2_labs.Proxy.Relay.{relay_length, relay_close}
use os2_labs.Proxy.Relay.Ops.{Writes}
use os2_labs.Proxy.Relay.Length.{Copied, Room, relay_length-Copied}
use os2_labs.Proxy.Relay.Close.{Unfilled, relay_close-Unfilled}
use os2_labs.Proxy.Request.{Request, parsed, incomplete, got_request, get, host, read_request}
use os2_labs.Proxy.Request.Bounds.{read_head-le}
use os2_labs.Proxy.Process.{Env, Response, process_request}
use os2_labs.Proxy.Process.Open.{Ends}
use os2_labs.Proxy.Process.Handler.{process_request-Ends}
use os2_labs.Proxy.Process.Exchange.{Polite}

-- Two addresses that refuse the connection.
abbrev both_refuse : List Attempt
both_refuse = refused (pos 5) ∷ refused (pos 6) ∷ []

resolve_and_connect-closed_example :
    ((fd : ℤ) × (first_connected both_refuse ≡ some fd)
      × ((resolve_and_connect (some both_refuse)).result ≡ fd)
      × ((resolve_and_connect (some both_refuse)).closed ≡ refused_fds both_refuse))
    ⊎ ((first_connected both_refuse ≡ none)
        × ((resolve_and_connect (some both_refuse)).result ≡ negsuc 0)
        × ((resolve_and_connect (some both_refuse)).closed
            ≡ refused_fds both_refuse ++ last_fd (negsuc 0) both_refuse ∷ []))
resolve_and_connect-closed_example = resolve_and_connect-closed both_refuse

-- The peer takes two bytes, then the call is interrupted, then the connection is lost.
abbrev takes_two : List SendEvent
takes_two = sent 2 ∷ send_interrupted ∷ send_failed ∷ []

abbrev page : List ℕ
page = 1 ∷ 2 ∷ 3 ∷ 4 ∷ 5 ∷ []

-- An entry in writing and the same when it is complete.
abbrev half : Entry
half = record {
  url = 47 ∷ [];
  chunks = (1 ∷ 2 ∷ 3 ∷ []) ∷ [];
  total_size = 3;
  last_access = 9;
  state = entry_incomplete;
  refcount = 1;
}

abbrev whole : Entry
whole = record half {
  chunks = (1 ∷ 2 ∷ 3 ∷ []) ∷ (4 ∷ 5 ∷ []) ∷ [];
  total_size = 5;
  state = entry_complete;
}

-- A read that finds the entry complete, at once or after a wait.
abbrev reading : Reading
reading = record { entry = whole; wakes = record { timed_out = true; entry = whole } ∷ [] }

Seen-whole : (e : Entry) → Seen reading.entry reading.wakes e → whole ≡ e
Seen-whole e (inl same) = same
Seen-whole e (inr same) = same

reading-Reads : Reads page reading
reading-Reads = record {
  sized = λ e seen. rw (← Seen-whole e seen) refl;
  part = λ e seen. rw (← Seen-whole e seen) ([], refl);
  whole = λ e seen state. rw (← Seen-whole e seen) refl;
  times_out = refl;
}

abbrev readings : List Reading
readings = reading ∷ reading ∷ []

handle_cached_request-Serves_example :
    Serves page 0 [] (handle_cached_request readings (sent 8 ∷ []) 0 [])
handle_cached_request-Serves_example =
    handle_cached_request-Serves page readings (sent 8 ∷ []) 0 []
      (reading-Reads, (reading-Reads, tt))

-- A session whose cache has the entry at address 5.
abbrev session : Session
session = record {
  sock_fd = pos 4;
  locked = false;
  cache = put_entry (new_cache 0) 5 (some half);
  to_client = 1 ∷ 2 ∷ 3 ∷ [];
  to_remote = [];
  sends = sent 8 ∷ [];
  memory = λ _. (true, true);
  client_closes = 0;
  remote_opens = 1;
  remote_closes = 0;
}

session-Writes : Writes 5 session half
unfolding put_entry
session-Writes = record { real = λ e. cc; here = refl }

half-Room : Room half 2
half-Room = record { alive = refl; sized = refl; fits = omega arith }

abbrev rest_comes : List RecvEvent
rest_comes = received (4 ∷ 5 ∷ []) ∷ []

relay_length-Copied_example :
    Copied 2 5 (1 ∷ 2 ∷ 3 ∷ []) (1 ∷ 2 ∷ 3 ∷ []) 1 (relay_length rest_comes 2 true 5 session)
relay_length-Copied_example =
    relay_length-Copied rest_comes 2 5 session half session-Writes (λ n. refl) half-Room

abbrev rest_ends : List RecvEvent
rest_ends = received (4 ∷ 5 ∷ []) ∷ received [] ∷ []

relay_close-Unfilled_example :
    Unfilled rest_ends 5 (1 ∷ 2 ∷ 3 ∷ []) half (relay_close rest_ends true 5 session)
relay_close-Unfilled_example = relay_close-Unfilled rest_ends 5 session half session-Writes

-- A request with a host and a response with a length of 2.
abbrev request : Request
request = record {
  method = get;
  path = 47 ∷ [];
  headers = record { name = host; value = 97 ∷ []; behind = 13 ∷ [] } ∷ [];
  minor_version = 0;
}

abbrev response : Response
response = record {
  status = 200;
  headers = record { name = content_length; value = 50 ∷ []; behind = 13 ∷ 10 ∷ [] } ∷ [];
}

abbrev env : Env
env = record {
  from_client = received (71 ∷ 69 ∷ []) ∷ received (13 ∷ 10 ∷ 13 ∷ 10 ∷ []) ∷ [];
  from_remote = received (72 ∷ 13 ∷ 10 ∷ 13 ∷ 10 ∷ 1 ∷ []) ∷ received (2 ∷ []) ∷ [];
  readings = λ _. [];
  phr_parse_request =
      λ buffer _. elim (header_end buffer) [ none ↦ incomplete | some _ ↦ parsed request ];
  phr_parse_response = λ head. elim (header_end head) [ none ↦ none | some _ ↦ some response ];
  getaddrinfo = λ _. some (connected (pos 7) ∷ []);
  fresh = 5;
  now_lookup = 1;
  now_insert = 2;
  errno_bad = false;
}

-- A length of two digits.
abbrev long_header : Header
long_header = record { name = content_length; value = 52 ∷ 50 ∷ []; behind = 13 ∷ 10 ∷ [] }

find_long : find_header (long_header ∷ []) content_length ≡ some long_header
unfolding find_header
find_long = refl

long-Digits : Digits (52 ∷ 50 ∷ [])
unfolding is_digit
long-Digits = (refl, (refl, tt))

get_content_len-place_value_example :
    ((place_value (52 ∷ 50 ∷ []) ≤ llong_max)
      × (get_content_len false (long_header ∷ []) ≡ pos (place_value (52 ∷ 50 ∷ []))))
    ⊎ ((llong_max < place_value (52 ∷ 50 ∷ []))
        × (get_content_len false (long_header ∷ []) ≡ negsuc 0))
get_content_len-place_value_example =
    get_content_len-place_value (long_header ∷ []) long_header 52 (50 ∷ []) (10 ∷ []) find_long refl
      refl long-Digits

the_length : get_content_len false response.headers ≡ pos 2
unfolding get_content_len
the_length = refl

the_host :
    find_header request.headers host
    ≡ some (record { name = host; value = 97 ∷ []; behind = 13 ∷ [] })
unfolding find_header
the_host = refl

reads :
    read_request env.phr_parse_request env.from_client []
    ≡ got_request request (71 ∷ 69 ∷ 13 ∷ 10 ∷ 13 ∷ 10 ∷ [])
unfolding read_request header_end
reads = refl

response_in : (head : List ℕ) (r : Response) → env.phr_parse_response head ≡ some r → response ≡ r
response_in head r e = of (header_end head) e
  where
    of :
        (o : Option ℕ)
        → ◌≡◌ {A = Option Response} (elim o [ none ↦ none | some _ ↦ some response ]) (some r)
        → response ≡ r
    of none e = cc
    of (some n) e = cc

env-Polite : Polite env
env-Polite = record {
  named = λ buffer r same.
      let whole = sym reads ∙ same in
      let same_request : request ≡ r = cc in
      rw (← same_request) (
        record { name = host; value = 97 ∷ []; behind = 13 ∷ [] },
        the_host,
        omega arith,
        omega arith,
      );
  short = λ buffer header_len es r read same.
      let (inside, bound) = read_head-le env.from_remote [] read in
      let same_response : response ≡ r = response_in (take header_len buffer) r same in
      rw (← same_response, the_length) (omega (arith, inside, bound));
  answered = λ p. tt;
}

abbrev start : Session
start = record session {
  cache = new_cache 0;
  to_client = [];
  sends = sent 8 ∷ sent 8 ∷ sent 8 ∷ [];
  remote_opens = 0;
}

process_request-Ends_example : Ends (process_request env start)
unfolding new_cache
process_request-Ends_example =
    process_request-Ends env env-Polite [] start (new_cache-IsCache 0) refl refl refl refl
