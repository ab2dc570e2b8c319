-- ===== src/Broker/Frame/RoundTrip.antt =====
-- Frames read as they were written.
use glassroot.Common.{
  ℕ, zero, suc, ◌/◌, ◌%◌, ◌^◌, ◌≤◌, ◌<◌, ◌≡◌, ◌↔◌, refl, sym, ap, ap₂, subst, ◌∙◌, false, ◌||◌, [],
  ◌∷◌, ◌++◌, length, length-append, take, drop, Result, ok, >>=-eq-ok, reject_if, ltb, ◌==◌, arith,
}
use glassroot.Broker.Frame.{
  Code, request_frame_invalid, request_too_large, response_write_failed, Bytes, AreBytes,
  put_uint32, uint32, encode_frame, read_frame,
}

take-append : (xs ys : Bytes) → take (length xs) (xs ++ ys) ≡ xs
take-append [] ys = refl
take-append (x ∷ xs) ys = ap (λ l. x ∷ l) (take-append xs ys)

drop-append : (xs ys : Bytes) → drop (length xs) (xs ++ ys) ≡ ys
drop-append [] ys = refl
drop-append (x ∷ xs) ys = drop-append xs ys

take-drop : (n : ℕ) (xs : Bytes) → take n xs ++ drop n xs ≡ xs
take-drop zero xs = refl
take-drop (suc n) [] = refl
take-drop (suc n) (x ∷ xs) = ap (λ l. x ∷ l) (take-drop n xs)

length-take : (n : ℕ) (xs : Bytes) → n ≤ length xs → length (take n xs) ≡ n
length-take zero xs h = refl
length-take (suc n) [] h = absurd (omega arith)
length-take (suc n) (x ∷ xs) h = ap suc (length-take n xs (omega arith))

uint32-put_uint32 :
    (n : ℕ)
    → n < 2 ^ 32
    → uint32 (n / 2 ^ 24 % 256) (n / 2 ^ 16 % 256) (n / 2 ^ 8 % 256) (n % 256) ≡ n
uint32-put_uint32 n h = omega arith

put_uint32-uint32 :
    (a b c d : ℕ)
    → a < 256
    → b < 256
    → c < 256
    → d < 256
    → put_uint32 (uint32 a b c d % 2 ^ 32) ≡ a ∷ b ∷ c ∷ d ∷ []
put_uint32-uint32 a b c d ha hb hc hd = ground (arith, high, second, third, low)
  where
    high : uint32 a b c d % 2 ^ 32 / 2 ^ 24 % 256 ≡ a
    high = omega arith

    second : uint32 a b c d % 2 ^ 32 / 2 ^ 16 % 256 ≡ b
    second = omega arith

    third : uint32 a b c d % 2 ^ 32 / 2 ^ 8 % 256 ≡ c
    third = omega arith

    low : uint32 a b c d % 2 ^ 32 % 256 ≡ d
    low = omega arith

ok-bytes : (a b : Bytes) → ◌≡◌ {A = Result Code Bytes} (ok a) (ok b) → a ≡ b
ok-bytes a b h = cc

-- What `encode_frame` gives, where it does.
encode_frame-ok :
    (payload frame : Bytes) (max : ℕ)
    → encode_frame payload max ≡ ok frame
    → (0 < length payload)
      × (length payload ≤ max)
      × (frame ≡ put_uint32 (length payload % 2 ^ 32) ++ payload)
unfolding encode_frame
encode_frame-ok payload frame max h =
    let (_, accepted, e) =
      >>=-eq-ok (reject_if (length payload == 0 || ltb max (length payload)) response_write_failed)
        _ h in
    (ground (arith, accepted), ground (arith, accepted), sym (ok-bytes _ frame e))

read_frame-put_uint32 :
    (payload rest : Bytes) (n limit : ℕ)
    → n ≡ length payload
    → 0 < n
    → n ≤ limit
    → limit < 2 ^ 32
    → read_frame (put_uint32 n ++ (payload ++ rest)) limit ≡ ok (payload, rest)
unfolding read_frame
read_frame-put_uint32 payload rest n limit same nonempty fits small =
    let e = uint32-put_uint32 n (omega arith) in
    let positive : (n == 0) ≡ false = ground arith in
    let within : ltb (limit % 2 ^ 32) n ≡ false = ground arith in
    let there : ltb (length (payload ++ rest)) n ≡ false =
      ground (arith, length-append payload rest) in
    rw (e, positive, within, there) (λ i. ok (taken i, dropped i))
  where
    taken : take n (payload ++ rest) ≡ payload
    taken = ap (λ k. take k (payload ++ rest)) same ∙ take-append payload rest

    dropped : drop n (payload ++ rest) ≡ rest
    dropped = ap (λ k. drop k (payload ++ rest)) same ∙ drop-append payload rest

-- A frame that was written is read back whole, whatever follows it, by a reader whose limit is no
-- smaller than the payload; the limit is one of a uint32.
pub read_frame-encode_frame :
    (payload rest frame : Bytes) (max limit : ℕ)
    → encode_frame payload max ≡ ok frame
    → length payload ≤ limit
    → limit < 2 ^ 32
    → read_frame (frame ++ rest) limit ≡ ok (payload, rest)
read_frame-encode_frame payload rest frame max limit h fits small =
    let (positive, _, written) = encode_frame-ok payload frame max h in
    let same : length payload % 2 ^ 32 ≡ length payload = omega arith in
    rw written (
      read_frame-put_uint32 payload rest (length payload % 2 ^ 32) limit same (omega arith)
        (omega arith) small)

ok-pair :
    (a b c d : Bytes)
    → ◌≡◌ {A = Result Code (Bytes × Bytes)} (ok (a, b)) (ok (c, d))
    → (a ≡ c) × (b ≡ d)
ok-pair a b c d h = (cc, cc)

-- Whatever is read as a frame was written as one: the input is the frame of the payload, and the rest.
encode_frame-read_frame :
    (input payload rest : Bytes) (limit : ℕ)
    → AreBytes input
    → limit < 2 ^ 32
    → read_frame input limit ≡ ok (payload, rest)
    → (frame : Bytes) × (encode_frame payload limit ≡ ok frame) × (input ≡ frame ++ rest)
unfolding read_frame encode_frame
encode_frame-read_frame [] payload rest limit bytes small h = cc
encode_frame-read_frame (a ∷ []) payload rest limit bytes small h = cc
encode_frame-read_frame (a ∷ b ∷ []) payload rest limit bytes small h = cc
encode_frame-read_frame (a ∷ b ∷ c ∷ []) payload rest limit bytes small h = cc
encode_frame-read_frame (a ∷ b ∷ c ∷ d ∷ input) payload rest limit (ha, (hb, (hc, (hd, _)))) small
      h =
    let n = uint32 a b c d in
    let (_, nonzero, h₁) = >>=-eq-ok (reject_if (n == 0) request_frame_invalid) _ h in
    let (_, fits, h₂) = >>=-eq-ok (reject_if (ltb (limit % 2 ^ 32) n) request_too_large) _ h₁ in
    let (_, there, h₃) = >>=-eq-ok (reject_if (ltb (length input) n) request_frame_invalid) _ h₂ in
    let (p, r) = ok-pair (take n input) (drop n input) payload rest h₃ in
    let size : length payload ≡ n =
      ap (λ (l : Bytes). length l) (sym p) ∙ length-take n input (ground (arith, there)) in
    let accepted : (length payload == 0 || ltb limit (length payload)) ≡ false =
      ground (arith, nonzero, fits, size) in
    let header : put_uint32 (length payload % 2 ^ 32) ≡ a ∷ b ∷ c ∷ d ∷ [] =
      ap (λ (k : ℕ). put_uint32 (k % 2 ^ 32)) size ∙ put_uint32-uint32 a b c d ha hb hc hd in
    (
      put_uint32 (length payload % 2 ^ 32) ++ payload,
      rw accepted refl,
      ap (λ (l : Bytes). a ∷ b ∷ c ∷ d ∷ l)
            (sym (take-drop n input) ∙ ap₂ (λ (x y : Bytes). x ++ y) p r)
          ∙ ap (λ (l : Bytes). l ++ (payload ++ rest)) (sym header),
    )

-- A payload is read from some bytes exactly if they begin with the frame that is written for it, and
-- the bytes after the frame are left to the next read. The limit is one of a uint32, and is the same
-- for writing and for reading.
pub read_frame_iff :
    (input payload rest : Bytes) (limit : ℕ)
    → AreBytes input
    → limit < 2 ^ 32
    → (read_frame input limit ≡ ok (payload, rest))
      ↔ ((frame : Bytes) × (encode_frame payload limit ≡ ok frame) × (input ≡ frame ++ rest))
read_frame_iff input payload rest limit bytes small = (
  encode_frame-read_frame input payload rest limit bytes small,
  λ (frame, encoded, same).
      subst (λ l. read_frame l limit ≡ ok (payload, rest)) (sym same)
        (read_frame-encode_frame payload rest frame limit limit encoded
          (encode_frame-ok payload frame limit encoded).1 small),
)
