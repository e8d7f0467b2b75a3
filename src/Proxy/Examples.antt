-- ===== src/Proxy/Examples.antt =====
-- Requests and answers in full, and the theorems at them.
use sp327_butt_k.Base.{◌≡◌, ◌<◌, refl, true, false, some, [], ◌∷◌, ◌++◌, arith, length, List, pos}
use sp327_butt_k.Text.{Text, codes, span, skip_spaces, scan_word, strchr, strstr, digits_value}
use sp327_butt_k.Proxy.{
  ok, word_into, scan_request_line, scan_until, scan_int, parse_authority, parse_http_request,
  modified_request, forward_request, crlf,
}
use sp327_butt_k.Proxy.Parse.{WellFormed, request, parse-port}
use sp327_butt_k.Proxy.Forward.{forward-path}
use sp327_butt_k.Proxy.Relay.{Net, Chunk, handle_client_request, forward_response}
use sp327_butt_k.Proxy.Relay.Sockets.{Ok, Balanced, sockets_balance}
use sp327_butt_k.Proxy.Relay.Delivery.{sent_to, response_of, relay_whole, short_send_loses}
use sp327_butt_k.Proxy.Main.{Setup, success, summary, main, is_interrupted, main_closes}
use sp327_butt_k.Proxy.Server.{client, interrupted, accept_failed, serve, start, clients_queued}

abbrev get : Text
get = codes "GET"

abbrev version : Text
version = codes "HTTP/1.1"

abbrev headers : Text
headers = codes "Host: h"

abbrev api_url : Text
api_url = codes "http://localhost:8000/api"

abbrev api : Text
api = request get api_url version (crlf ++ headers)

parse_api :
    parse_http_request api
    ≡ ok (record { hostname = codes "localhost"; negative_port = false; port = 8000 })
unfolding parse_http_request scan_request_line word_into scan_word skip_spaces span parse_authority
    scan_until scan_int digits_value
parse_api = refl

forward_api : forward_request api ≡ ok (codes "GET /api HTTP/1.1" ++ crlf ++ headers)
unfolding forward_request scan_request_line word_into scan_word skip_spaces span modified_request
    strchr strstr
forward_api = refl

api-WellFormed : WellFormed get api_url version (crlf ++ headers)
api-WellFormed = ground arith

parse-port_example :
    parse_http_request api
    ≡ ok (record { hostname = codes "localhost"; negative_port = false; port = 8000 })
unfolding digits_value
parse-port_example =
    parse-port api-WellFormed 108 (codes "ocalhost") 56 (codes "000") (codes "/api") refl
      (omega arith) (ground arith) (ground arith) refl (omega arith)

abbrev plain_url : Text
plain_url = codes "http://host/a"

plain-WellFormed : WellFormed get plain_url version (crlf ++ headers)
plain-WellFormed = ground arith

forward-path_example :
    forward_request (request get plain_url version (crlf ++ headers))
    ≡ ok (get ++ 32 ∷ (codes "/a" ++ 32 ∷ (version ++ (crlf ++ headers))))
forward-path_example =
    forward-path plain-WellFormed (codes "host") (codes "/a") refl (ground arith) refl (omega arith)

abbrev secure_url : Text
secure_url = codes "https://h/"

secure-WellFormed : WellFormed get secure_url version (crlf ++ headers)
secure-WellFormed = ground arith

abbrev chunks : List Chunk
chunks =
    record { bytes = codes "ab"; accepted = some 2 }
    ∷ record { bytes = codes "c"; accepted = some 1 }
    ∷ []

relay_whole_example : sent_to 7 (forward_response 7 chunks) ≡ response_of chunks
relay_whole_example = relay_whole 7 chunks (refl, (refl, tt))

short_send_loses_example :
    (sent_to 7
        (forward_response 7 (chunks ++ record { bytes = codes "xyz"; accepted = some 1 } ∷ chunks))
      ≡ response_of chunks ++ codes "x" ++ sent_to 7 (forward_response 7 chunks))
    × (length (
          sent_to 7 (
            forward_response 7
              (chunks ++ record { bytes = codes "xyz"; accepted = some 1 } ∷ chunks)))
        < length
            (response_of (chunks ++ record { bytes = codes "xyz"; accepted = some 1 } ∷ chunks)))
short_send_loses_example =
    short_send_loses 7 chunks chunks (record { bytes = codes "xyz"; accepted = some 1 }) 1
      (refl, (refl, tt)) refl (omega arith)

abbrev net : Net
net = record {
  received = some api;
  resolve = λ t. some (
      record { socket = some 8; connects = false }
      ∷ record { socket = some 9; connects = true }
      ∷ []);
  target_accepts = some 100;
  response = chunks;
}

sockets_balance_example : Ok (Balanced 7) (handle_client_request net 7)
sockets_balance_example = sockets_balance net 7

clients_queued_example :
    (serve
      (client 10 ∷ accept_failed ∷ client 20 ∷ interrupted ∷ client 30 ∷ [])
      start).request_queue.items
    ≡ 10 ∷ 20 ∷ []
clients_queued_example =
    clients_queued (client 10 ∷ accept_failed ∷ client 20 ∷ interrupted ∷ client 30 ∷ [])

-- The clients of an interrupted program whose socket is 3.
abbrev working_setup : Setup
working_setup = record {
  queue_created = true;
  pool_created = true;
  socket = some 3;
  bind_ok = true;
  listen_ok = true;
}

main_closes_example :
    summary (main working_setup 1 (pos 0) (client 5 ∷ accept_failed ∷ interrupted ∷ []))
    ≡ (2, success)
unfolding is_interrupted
main_closes_example =
    main_closes working_setup 1 (pos 0) (client 5 ∷ accept_failed ∷ interrupted ∷ [])
