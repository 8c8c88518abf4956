-- ===== src/Api/Gate/Tests.antt =====
-- Runs of the chain, and a witness for each of its properties.
use packet_lab.Prelude.{
  ◌≡◌, ◌≢◌, refl, if◌then◌else◌, none, some, [], ◌∷◌, bytes, eqb, has_prefix, lookup,
}
use packet_lab.Api.Gate.{
  Request, handled, app_error, Net, Mux, Settings, header, bearer, token_of, is_static_path,
  authorized, auth_middleware, request_id, request_id_middleware, recovered, recovery_middleware,
  inner_chain, csrf_ok, finished, panicked, csrf_middleware, cors_middleware, secured,
  err_unauthorized,
}
use packet_lab.Api.Gate.Guards.{Protected, Carries, handled_guarded}

abbrev net : Net
net = record {
  hostname =
      λ o. if has_prefix o (bytes "http://localhost") then some (bytes "localhost") else none;
  split_host_port = λ a. some (a, []);
  new_uuid = bytes "0123456789abcdef";
}

abbrev settings : Settings
settings = record { api_token = bytes "secret"; allow_origins = [] }

abbrev echo : Mux
echo r id = finished r.path

abbrev broken : Mux
broken r id = panicked (some (bytes "half"))

abbrev clear_all : Request
clear_all = record {
  method = bytes "POST";
  path = bytes "/api/clear";
  remote_addr = bytes "10.0.0.1";
  headers =
      (bytes "Authorization", bytes "Bearer secret")
      ∷ (bytes "X-Requested-With", bytes "XMLHttpRequest")
      ∷ [];
  token_param = [];
}

clear_all_served : (secured net settings echo clear_all).body ≡ handled (bytes "/api/clear")
unfolding secured cors_middleware csrf_middleware csrf_ok inner_chain recovery_middleware recovered
    request_id_middleware auth_middleware authorized token_of bearer is_static_path eqb has_prefix
    lookup
clear_all_served = refl

without_token :
    (secured net settings echo (record clear_all { method = bytes "GET"; headers = [] })).body
    ≡ app_error (record err_unauthorized { request_id = bytes "0123456789ab" })
unfolding secured cors_middleware csrf_middleware csrf_ok inner_chain recovery_middleware recovered
    request_id_middleware auth_middleware authorized token_of bearer is_static_path eqb has_prefix
    lookup request_id
without_token = refl

handled_guarded_example :
    (settings.api_token ≢ [] → Protected clear_all.path → Carries clear_all (bytes "secret"))
    × (clear_all.method ≢ bytes "GET"
        → clear_all.method ≢ bytes "HEAD"
        → clear_all.method ≢ bytes "OPTIONS"
        → header (bytes "X-Requested-With") clear_all ≡ bytes "XMLHttpRequest")
    × (echo clear_all (request_id net clear_all) ≡ finished (bytes "/api/clear"))
handled_guarded_example =
    handled_guarded net settings echo clear_all (bytes "/api/clear") clear_all_served
