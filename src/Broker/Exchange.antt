-- ===== src/Broker/Exchange.antt =====
-- A token request between client and server (internal/githubbroker: client.go `RequestToken`,
-- server.go `handle`, protocol.go). JSON is a parameter: `json.Marshal`, and the decoders with the
-- checks of the JSON text before them. So are the issuer of tokens and the connection.
pub mod Issued
mod Tests
use glassroot.Common.{
  ℕ, zero, suc, String, Bool, true, false, not, ◌||◌, ◌&&◌, Option, none, some, List, [], ◌∷◌,
  Result, ok, err, ◌>>=◌, ◌>>◌, reject_if, ltb, ◌==◌, length, str_eq, codes, byte_length,
  has_control, Time, if◌then◌else◌,
}
use glassroot.Common.Int.{ℤ, nonpositive}
use glassroot.Broker.Frame.{
  Code, request_frame_invalid, response_write_failed, unsupported_schema_version,
  invalid_token_purpose, invalid_installation_id, invalid_repository_id, connection_limit,
  token_issue_failed, client_connection_failed, client_response_invalid, invalid_limits, Bytes,
  encode_frame, read_frame,
}

pub data TokenPurpose : Type 0 where
  pull_request_read source_read : TokenPurpose
  other_purpose : String → TokenPurpose

pub record TokenRequest : Type 0 where
  pub schema_version : String
  pub purpose : TokenPurpose
  pub installation_id : ℤ
  pub repository_id : ℤ

pub record TokenMetadata : Type 0 where
  pub purpose : TokenPurpose
  pub installation_id : ℤ
  pub repository_id : ℤ
  pub expires_at : Time
  pub granted_permissions : List String

-- `error_code` is `none` for the empty text.
pub record TokenResponse : Type 0 where
  pub schema_version : String
  pub purpose : TokenPurpose
  pub installation_id : ℤ
  pub repository_id : ℤ
  pub expires_at : Option Time
  pub granted_permissions : List String
  pub token : String
  pub error_code : Option Code
  pub message : String

-- What is checked of the limits; a negative limit is rejected as 0 is.
pub record Limits : Type 0 where
  pub max_path_bytes : ℕ
  pub max_request_frame_bytes : ℕ
  pub max_response_frame_bytes : ℕ
  pub max_concurrent_connections : ℕ
  pub max_requests_in_flight : ℕ
  pub per_connection_timeout : ℕ
  pub max_token_bytes : ℕ

-- A lease of the issuer: its metadata, and what `Use` hands over, if the lease is not closed.
pub record Lease : Type 0 where
  pub metadata : TokenMetadata
  pub secret : Option String

-- `read_request` and `read_response` stand for the decoders, with the checks before them.
pub record Json : Type 0 where
  pub write_request : TokenRequest → Option Bytes
  pub write_response : TokenResponse → Option Bytes
  pub read_request : Bytes → Option TokenRequest
  pub read_response : Bytes → Option TokenResponse

abbrev pub or_code : {A : Type 0} → Code → Option A → Result Code A
or_code code none = err code
or_code code (some a) = ok a

abbrev outside : ℕ → ℕ → Bool
outside max n = n == 0 || ltb max n

unfoldable pub validate_limits : Limits → Result Code (Unit {0})
validate_limits l =
    reject_if
      (outside 4096 l.max_path_bytes
        || outside 65536 l.max_request_frame_bytes
        || outside 32768 l.max_response_frame_bytes
        || outside 128 l.max_concurrent_connections
        || outside 64 l.max_requests_in_flight
        || outside 60_000_000_000 l.per_connection_timeout
        || outside 16384 l.max_token_bytes)
      invalid_limits

abbrev pub schema_token_request : String
schema_token_request = "glassroot.dev/github-token-request/v1alpha1"

abbrev pub schema_token_response : String
schema_token_response = "glassroot.dev/github-token-response/v1alpha1"

abbrev known_purpose : TokenPurpose → Bool
known_purpose pull_request_read = true
known_purpose source_read = true
known_purpose (other_purpose p) = false

unfoldable pub validate_token_request : TokenRequest → Limits → Result Code (Unit {0})
validate_token_request req limits = do
  validate_limits limits
  reject_if (not (str_eq req.schema_version schema_token_request)) unsupported_schema_version
  reject_if (not (known_purpose req.purpose)) invalid_token_purpose
  reject_if (nonpositive req.installation_id) invalid_installation_id
  reject_if (nonpositive req.repository_id) invalid_repository_id

-- The response with a token, and the one that `writeError` sends.
abbrev pub token_response : TokenMetadata → String → TokenResponse
token_response meta token = record {
  schema_version = schema_token_response;
  purpose = meta.purpose;
  installation_id = meta.installation_id;
  repository_id = meta.repository_id;
  expires_at = some meta.expires_at;
  granted_permissions = meta.granted_permissions;
  token = token;
  error_code = none;
  message = "";
}

abbrev pub error_response : Code → TokenResponse
error_response code = record {
  schema_version = schema_token_response;
  purpose = other_purpose "";
  installation_id = ℤ.pos 0;
  repository_id = ℤ.pos 0;
  expires_at = none;
  granted_permissions = [];
  token = "";
  error_code = some code;
  message = "request rejected";
}

-- What the server finds when a connection comes: the check of its peer, a free slot, the bytes that
-- the client sends, and whether writing fails.
pub record Connection : Type 0 where
  pub peer : Result Code (Unit {0})
  pub slot : Bool
  pub input : Bytes
  pub write_fails : Bool

abbrev pub bad_token : Limits → String → Bool
bad_token limits token =
    str_eq token "" || ltb limits.max_token_bytes (byte_length (codes token)) || has_control token

module _ (json : Json) (limits : Limits) where
  unfoldable pub decode_request_payload : Bytes → Result Code TokenRequest
  decode_request_payload payload = do
    reject_if (length payload == 0) request_frame_invalid
    req ← or_code request_frame_invalid (json.read_request payload)
    validate_token_request req limits
    ok req

  unfoldable pub decode_response_payload : Bytes → Result Code TokenResponse
  decode_response_payload payload = do
    resp ← or_code client_response_invalid (json.read_response payload)
    reject_if (not (str_eq resp.schema_version schema_token_response)) client_response_invalid
    ok resp

  -- `writeFrame`: the bytes on the connection.
  unfoldable pub write_frame : Bool → TokenResponse → Result Code Bytes
  write_frame fails resp = do
    body ← or_code response_write_failed (json.write_response resp)
    frame ← encode_frame body limits.max_response_frame_bytes
    reject_if fails response_write_failed
    ok frame

  -- `handle` up to the response.
  unfoldable pub serve :
      (TokenRequest → Option Lease) → Connection → Result Code (TokenPurpose × TokenResponse)
  serve issue conn = do
    conn.peer
    reject_if (not conn.slot) connection_limit
    frame ← read_frame conn.input limits.max_request_frame_bytes
    req ← decode_request_payload (frame.0)
    lease ← or_code token_issue_failed (issue req)
    token ← or_code token_issue_failed lease.secret
    ok (req.purpose, token_response lease.metadata token)

  abbrev pub written : Result Code Bytes → Bytes
  written (ok frame) = frame
  written (err code) = []

  abbrev pub sent : TokenPurpose → Result Code Bytes → Bytes × Result Code TokenPurpose
  sent purpose (ok frame) = (frame, ok purpose)
  sent purpose (err code) = ([], err response_write_failed)

  abbrev pub answered :
      Bool → Result Code (TokenPurpose × TokenResponse) → Bytes × Result Code TokenPurpose
  answered fails (err code) = (written (write_frame fails (error_response code)), err code)
  answered fails (ok r) = sent (r.0) (write_frame fails (r.1))

  -- What the client can read, and what is logged: the purpose for which a token was issued, or the code.
  unfoldable pub handle :
      (TokenRequest → Option Lease) → Connection → Bytes × Result Code TokenPurpose
  handle issue conn = answered conn.write_fails (serve issue conn)

  -- What `RequestToken` makes of a response.
  unfoldable pub accept_response : TokenResponse → Result Code (TokenMetadata × String)
  accept_response resp = do
    elim (resp.error_code) [ none ↦ ok tt | some code ↦ err code ]
    expires ← or_code client_response_invalid resp.expires_at
    reject_if (bad_token limits resp.token) client_response_invalid
    ok (
      record {
        purpose = resp.purpose;
        installation_id = resp.installation_id;
        repository_id = resp.repository_id;
        expires_at = expires;
        granted_permissions = resp.granted_permissions;
      },
      resp.token,
    )

  abbrev or_response_invalid : Result Code (Bytes × Bytes) → Result Code (Bytes × Bytes)
  or_response_invalid (ok a) = ok a
  or_response_invalid (err code) = err client_response_invalid

  -- What `RequestToken` makes of the bytes that come.
  unfoldable pub receive : Bytes → Result Code (TokenMetadata × String)
  receive input = do
    answer ← or_response_invalid (read_frame input limits.max_response_frame_bytes)
    resp ← decode_response_payload (answer.0)
    accept_response resp

  -- `exchange`: the bytes that come for those that are sent, unless the connection or the writing fails.
  unfoldable pub request_token :
      (Bytes → Option Bytes) → TokenRequest → Result Code (TokenMetadata × String)
  request_token exchange req = do
    validate_token_request req limits
    body ← or_code request_frame_invalid (json.write_request req)
    frame ← encode_frame body limits.max_request_frame_bytes
    input ← or_code client_connection_failed (exchange frame)
    receive input
