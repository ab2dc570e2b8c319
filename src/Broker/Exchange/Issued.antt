-- ===== src/Broker/Exchange/Issued.antt =====
-- What a client gets of a server, all branches of both together.
use glassroot.Common.{
  ◌≤◌, ◌<◌, ◌≡◌, String, true, false, Option, some, length, Result, ok, ◌>>=◌, ◌>>◌, reject_if,
}
use glassroot.Broker.Frame.{Code, token_issue_failed, client_response_invalid, Bytes}
use glassroot.Broker.Exchange.{
  TokenPurpose, TokenRequest, TokenMetadata, TokenResponse, Limits, Lease, Json, Connection,
  or_code, validate_token_request, token_response, bad_token, answered,
}

-- What a request comes to: the lease of the issuer, if its token is one that a client accepts.
abbrev pub issued :
    (TokenRequest → Option Lease) → Limits → TokenRequest → Result Code (TokenMetadata × String)
issued issue limits req = do
  lease ← or_code token_issue_failed (issue req)
  token ← or_code token_issue_failed lease.secret
  reject_if (bad_token limits token) client_response_invalid
  ok (lease.metadata, token)

-- The JSON text of a request is read back, and fits the frames of both sides.
abbrev pub Sendable : Json → Limits → Limits → TokenRequest → Type 0
Sendable json client server req =
    (body : Bytes) × (json.write_request req ≡ some body)
    × (json.read_request body ≡ some req)
    × (0 < length body)
    × (length body ≤ client.max_request_frame_bytes)
    × (length body ≤ server.max_request_frame_bytes)

-- The same of a response.
abbrev pub Returnable : Json → Limits → Limits → TokenResponse → Type 0
Returnable json client server resp =
    (body : Bytes) × (json.write_response resp ≡ some body)
    × (json.read_response body ≡ some resp)
    × (0 < length body)
    × (length body ≤ client.max_response_frame_bytes)
    × (length body ≤ server.max_response_frame_bytes)

module _ (json : Json) (client server : Limits) where
  module _ (issue : TokenRequest → Option Lease) (req : TokenRequest)
      (valid_client : validate_token_request req client ≡ ok tt)
      (valid_server : validate_token_request req server ≡ ok tt)
      (sendable : Sendable json client server req) where
    -- A server that accepts the connection and can write to it.
    abbrev open_connection : Bytes → Connection
    open_connection bytes = record { peer = ok tt; slot = true; input = bytes; write_fails = false }

    -- What the server does once it has read the request.
    abbrev issue_response : Result Code (TokenPurpose × TokenResponse)
    issue_response = do
      lease ← or_code token_issue_failed (issue req)
      token ← or_code token_issue_failed lease.secret
      ok (req.purpose, token_response lease.metadata token)

    abbrev answered_issue : Bytes × Result Code TokenPurpose
    answered_issue = answered json server false issue_response
