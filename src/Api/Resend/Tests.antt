-- ===== src/Api/Resend/Tests.antt =====
-- A request that is sent again over a client that fails twice, and a witness for each property.
use packet_lab.Prelude.{
  ◌≡◌, refl, ℕ, zero, suc, true, false, none, some, [], ◌∷◌, bytes, length, eqb, insert, lookup,
}
use packet_lab.Storage.Scripted.{Table, scripted, scripted-IsTable}
use packet_lab.Proxy.Decide.{Http, set_headers}
use packet_lab.Api.Addresses.{
  Net, check_resend_target, resolve_allowed_ip, any_blocked, blocked_ip, to4,
}
use packet_lab.Api.Resend.{
  ResendRequest, Url, Answer, answered, failed, Sent, Client, Service, resend, new_request,
  attempts, retry, saved, attempted, send_built, send_checked, flatten_headers, with_agent,
}
use packet_lab.Api.Resend.Sends.{noting, Sends, resend-Sends}
use packet_lab.Api.Resend.Stores.{Stores, resend-Stores}

abbrev http : Http
http = record {
  is_request = λ method url. true;
  host_of = λ url. bytes "a.io";
  canonical = λ name. name;
  status_text = λ code. [];
}

abbrev net : Net
net = record {
  parse_ip = λ host. none;
  lookup_ip_addr = λ host. some ((8 ∷ 8 ∷ 4 ∷ 4 ∷ []) ∷ []);
  split_host_port = λ addr. some (bytes "a.io", bytes "80");
}

abbrev target : Url
target = record {
  scheme = bytes "http";
  host = bytes "a.io";
  hostname = bytes "a.io";
  path = bytes "/x";
}

abbrev service : Service
service = record {
  insecure = false;
  has_hub = true;
  http = http;
  net = net;
  parse_url = λ url. some target;
}

abbrev request : ResendRequest
request = record { method = bytes "GET"; url = bytes "http://a.io/x"; headers = []; body = [] }

abbrev down : Answer
down = record { status_code = 503; proto = bytes "HTTP/1.1"; headers = []; body = bytes "no" }

-- the first two sends fail, the others have an answer
abbrev answer : ℕ → Sent
answer zero = failed (bytes "eof")
answer (suc zero) = failed (bytes "eof")
answer (suc (suc n)) = answered down

abbrev client : Client ℕ
client = record { send = λ req n. (answer n, suc n) }

abbrev empty : Table
empty = record { script = []; rows = [] }

-- two failures, an answer that is an error of the server, and one more
four : length (resend service (noting client) scripted 5 9 request (0, []) empty).network.1 ≡ 4
unfolding resend send_checked send_built attempted saved attempts retry new_request
    check_resend_target resolve_allowed_ip any_blocked blocked_ip to4 eqb with_agent set_headers
    insert lookup flatten_headers
four = refl

resend-Sends_example :
    Sends service request 4
      (resend service (noting client) scripted 5 9 request (0, []) empty).network.1
resend-Sends_example = resend-Sends service client scripted 5 9 request 0 empty

resend-Stores_example :
    Stores service client scripted 5 9 scripted-IsTable request empty
      (resend service client scripted 5 9 request 0 empty).outcome
      (resend service client scripted 5 9 request 0 empty)
resend-Stores_example = resend-Stores service client scripted 5 9 scripted-IsTable request 0 empty
