-- ===== src/Models.antt =====
-- internal/models/models.go: the records that the components exchange. A time is a number of
-- nanoseconds, an id is a row number of the database, a map of headers is a list of pairs.
use packet_lab.Prelude.{ℕ, Bool, false, Bytes, Map, []}

-- `CapturedRequest`
pub record CapturedRequest : Type 0 where
  pub id : ℕ
  pub method : Bytes
  pub url : Bytes
  pub host : Bytes
  pub path : Bytes
  pub protocol : Bytes
  pub is_https : Bool
  pub req_headers : Map Bytes
  pub req_body : Bytes
  pub status_code : ℕ
  pub res_headers : Map Bytes
  pub res_body : Bytes
  pub duration_ms : ℕ
  pub size_bytes : ℕ
  pub truncated : Bool
  pub captured_at : ℕ
  pub capture_mode : Bytes
  pub process_pid : ℕ
  pub process_name : Bytes
  pub is_sse : Bool
  pub sse_events : Bytes

-- the zero value of the struct
abbrev pub empty_request : CapturedRequest
empty_request = record {
  id = 0;
  method = [];
  url = [];
  host = [];
  path = [];
  protocol = [];
  is_https = false;
  req_headers = [];
  req_body = [];
  status_code = 0;
  res_headers = [];
  res_body = [];
  duration_ms = 0;
  size_bytes = 0;
  truncated = false;
  captured_at = 0;
  capture_mode = [];
  process_pid = 0;
  process_name = [];
  is_sse = false;
  sse_events = [];
}

-- `ProcessInfo`
pub record ProcessInfo : Type 0 where
  pub pid : ℕ
  pub name : Bytes

-- `InterceptRule`
pub record InterceptRule : Type 0 where
  pub id : ℕ
  pub pattern : Bytes
  pub method : Bytes
  pub action : Bytes
  pub enabled : Bool
  pub created_at : ℕ

-- `InterceptResult`
pub record InterceptResult : Type 0 where
  pub request_id : Bytes
  pub action : Bytes
  pub method : Bytes
  pub url : Bytes
  pub new_headers : Map Bytes
  pub new_body : Bytes
  pub status_code : ℕ

-- `InterceptLog`
pub record InterceptLog : Type 0 where
  pub id : ℕ
  pub action : Bytes
  pub request_url : Bytes
  pub request_method : Bytes
  pub request_host : Bytes
  pub rule_pattern : Bytes
  pub mode : Bytes
  pub created_at : Bytes
