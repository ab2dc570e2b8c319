-- ===== src/Broker/Exchange/Tests.antt =====
-- A token request at concrete texts.
use glassroot.Common.{
  ◌≡◌, refl, true, Option, none, some, [], ◌∷◌, ok, ◌==◌, if◌then◌else◌, byte_length, has_control,
}
use glassroot.Common.Int.{pos}
use glassroot.Broker.Frame.{token_issue_failed, Bytes}
use glassroot.Broker.Exchange.{
  pull_request_read, TokenRequest, TokenMetadata, TokenResponse, Limits, Lease, Json,
  schema_token_request, token_response, error_response,
}
use glassroot.Broker.Exchange.Issued.{issued}

abbrev limits : Limits
limits = record {
  max_path_bytes = 4096;
  max_request_frame_bytes = 65536;
  max_response_frame_bytes = 32768;
  max_concurrent_connections = 32;
  max_requests_in_flight = 16;
  per_connection_timeout = 20_000_000_000;
  max_token_bytes = 16384;
}

abbrev request : TokenRequest
request = record {
  schema_version = schema_token_request;
  purpose = pull_request_read;
  installation_id = pos 7;
  repository_id = pos 9;
}

abbrev metadata : TokenMetadata
metadata = record {
  purpose = pull_request_read;
  installation_id = pos 7;
  repository_id = pos 9;
  expires_at = record { nanos = 5; utc = true };
  granted_permissions = "contents:read" ∷ [];
}

abbrev issue : TokenRequest → Option Lease
issue r = some (record { metadata = metadata; secret = some "ghs_token" })

-- Texts of one byte, for the one request and the two answers.
abbrev json : Json
json = record {
  write_request = λ r. some (1 ∷ []);
  write_response = λ r. elim (r.error_code) [ none ↦ some (2 ∷ []) | some c ↦ some (3 ∷ []) ];
  read_request = λ b. some request;
  read_response = read;
}
  where
    read : Bytes → Option TokenResponse
    read [] = none
    read (b ∷ bs) =
        if b == 2
        then some (token_response metadata "ghs_token")
        else some (error_response token_issue_failed)

token_given : issued issue limits request ≡ ok (metadata, "ghs_token")
unfolding byte_length has_control
token_given = refl
