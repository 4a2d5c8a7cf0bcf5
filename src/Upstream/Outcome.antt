-- ===== src/Upstream/Outcome.antt =====
-- `UpstreamResult` of backend/brup/proxy/upstream.py, without the duration.
use brup_http_proxy.Prelude.{Bool, true, false, Option, none, some, [], if◌then◌else◌}
use brup_http_proxy.Bytes.{Bytes}
use brup_http_proxy.HttpMessage.Headers.{Headers}
use brup_http_proxy.HttpMessage.Message.{Response}

pub record UpstreamResult : Type 0 where
  pub raw_response : Bytes
  pub response : Option Response
  pub error : Option Bytes
  pub is_h2 : Bool
  pub h2_headers : Option Headers
  pub h2_body : Bytes

-- `UpstreamResult.ok`
unfoldable pub is_ok : UpstreamResult → Bool
is_ok result = elim result.error [
  | some e ↦ false
  | none ↦
      if result.is_h2
      then (elim result.h2_headers [ none ↦ false | some headers ↦ true ])
      else (elim result.response [ none ↦ false | some resp ↦ true ])
]

-- a result that has an error, of the protocol that was spoken
abbrev pub failed_with : Bool → Bytes → UpstreamResult
failed_with is_h2 error = record {
  raw_response = [];
  response = none;
  error = some error;
  is_h2 = is_h2;
  h2_headers = none;
  h2_body = [];
}
