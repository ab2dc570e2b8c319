-- ===== src/Broker/Frame.antt =====
-- The frames of the broker's protocol (internal/githubbroker/protocol.go): four bytes of length, the
-- highest first, and the payload. A reader is the list of the bytes that will come.
pub mod RoundTrip
mod Tests
use glassroot.Common.{
  ℕ, ◌+◌, ◌*◌, ◌/◌, ◌%◌, ◌^◌, ◌<◌, Bool, ◌||◌, List, [], ◌∷◌, ◌++◌, length, take, drop, All, Result,
  ok, err, ◌>>=◌, ◌>>◌, reject_if, ltb, ◌==◌,
}

-- The codes that the protocol uses.
pub data Code : Type 0 where
  request_frame_invalid request_too_large response_write_failed : Code
  unsupported_schema_version invalid_token_purpose invalid_installation_id invalid_repository_id :
      Code
  connection_limit peer_uid_rejected token_issue_failed client_connection_failed
        client_response_invalid :
      Code
  invalid_limits : Code

abbrev pub Bytes : Type 0
Bytes = List ℕ

abbrev pub AreBytes : Bytes → Type 0
AreBytes = All (λ b. b < 256)

-- `binary.BigEndian.PutUint32`
abbrev pub put_uint32 : ℕ → Bytes
put_uint32 n = (n / 2 ^ 24 % 256) ∷ (n / 2 ^ 16 % 256) ∷ (n / 2 ^ 8 % 256) ∷ (n % 256) ∷ []

-- `binary.BigEndian.Uint32`
abbrev pub uint32 : ℕ → ℕ → ℕ → ℕ → ℕ
uint32 a b c d = a * 2 ^ 24 + b * 2 ^ 16 + c * 2 ^ 8 + d

unfoldable pub encode_frame : Bytes → ℕ → Result Code Bytes
encode_frame payload max = do
  reject_if (length payload == 0 || ltb max (length payload)) response_write_failed
  ok (put_uint32 (length payload % 2 ^ 32) ++ payload)

-- `io.ReadFull` of the payload, with what is left to read.
abbrev pub read_full : ℕ → Bytes → Result Code (Bytes × Bytes)
read_full n input = do
  reject_if (ltb (length input) n) request_frame_invalid
  ok (take n input, drop n input)

unfoldable pub read_frame : Bytes → ℕ → Result Code (Bytes × Bytes)
read_frame (a ∷ b ∷ c ∷ d ∷ input) max = do
  let n = uint32 a b c d
  reject_if (n == 0) request_frame_invalid
  reject_if (ltb (max % 2 ^ 32) n) request_too_large
  read_full n input
read_frame _ max = err request_frame_invalid
