-- ===== src/Proxy/Decide/Tests.antt =====
-- Runs of the handlers, and a witness for each of their properties.
use packet_lab.Prelude.{◌≡◌, ◌≢◌, refl, true, some, [], ◌∷◌, bytes, eqb}
use packet_lab.Models.{InterceptResult}
use packet_lab.Proxy.Decide.{
  HttpRequest, Http, forward, queue_full, decided, is_modified, modified, handle_result,
  handle_manual, itoa, digits,
}
use packet_lab.Proxy.Decide.Given.{LetsPass, Gives}
use packet_lab.Proxy.Decide.Manual.{Rebuilt, manual_outcome}

abbrev http : Http
http = record {
  is_request = λ m u. true;
  host_of = λ u. bytes "a.org";
  canonical = λ k. k;
  status_text = λ n. bytes "OK";
}

abbrev get : HttpRequest
get = record {
  method = bytes "GET";
  url = bytes "http://a.org/";
  host = bytes "a.org";
  headers = (bytes "Accept", bytes "*/*") ∷ [];
  body = [];
  content_length = some 0;
}

abbrev decision : InterceptResult
decision = record {
  request_id = bytes "req_1";
  action = bytes "modify";
  method = bytes "POST";
  url = [];
  new_headers = (bytes "Cookie", bytes "a=b") ∷ [];
  new_body = bytes "x";
  status_code = 0;
}

-- `POST` with the new header, the old one and the agent's
modified_run :
    handle_manual http (decided decision) get
    ≡ forward (modified http decision get) (some (modified http decision get))
unfolding handle_manual handle_result is_modified eqb
modified_run = refl

itoa_run : itoa 305 ≡ bytes "305"
unfolding itoa digits
itoa_run = refl

manual_outcome_example :
    (decided decision ≢ queue_full)
    × ((r : InterceptResult) → decided decision ≡ decided r → r.action ≢ bytes "drop")
    × (modified http decision get ≢ get
        → (r : InterceptResult) × (decided decision ≡ decided r) × LetsPass r × Gives r)
    × ((r : InterceptResult)
        → decided decision ≡ decided r
        → LetsPass r
        → Gives r
        → Rebuilt http r get (modified http decision get)
          × (some (modified http decision get) ≡ some (modified http decision get)))
manual_outcome_example =
    manual_outcome http (decided decision) get (modified http decision get)
      (some (modified http decision get)) modified_run
