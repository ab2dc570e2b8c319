-- ===== src/Broker/Frame/Tests.antt =====
-- Frames at concrete bytes.
use glassroot.Common.{◌≡◌, ◌↔◌, refl, [], ◌∷◌, ◌++◌, ok, err, arith}
use glassroot.Broker.Frame.{
  Bytes, request_too_large, request_frame_invalid, encode_frame, read_frame,
}
use glassroot.Broker.Frame.RoundTrip.{read_frame_iff}

abbrev payload : Bytes
payload = 123 ∷ 125 ∷ []

abbrev frame : Bytes
frame = 0 ∷ 0 ∷ 0 ∷ 2 ∷ 123 ∷ 125 ∷ []

encoded : encode_frame payload 65536 ≡ ok frame
unfolding encode_frame
encoded = refl

read_frame_iff_example :
    (read_frame (frame ++ 9 ∷ []) 65536 ≡ ok (payload, 9 ∷ []))
    ↔ ((f : Bytes) × (encode_frame payload 65536 ≡ ok f) × (frame ++ 9 ∷ [] ≡ f ++ 9 ∷ []))
read_frame_iff_example =
    read_frame_iff (frame ++ 9 ∷ []) payload (9 ∷ []) 65536 (omega arith) (omega arith)

too_large : read_frame (0 ∷ 1 ∷ 0 ∷ 1 ∷ []) 65536 ≡ err request_too_large
unfolding read_frame
too_large = refl

cut_short : read_frame (0 ∷ 0 ∷ 0 ∷ 2 ∷ 123 ∷ []) 65536 ≡ err request_frame_invalid
unfolding read_frame
cut_short = refl
