-- ===== src/Gateway/GrpcWeb/Framing.antt =====
-- sdks/typescript/src/gateway/grpc-web.ts: a stream of frames, encoded and decoded.
use neural_mesh_protocol.Prelude.{
  ℕ, zero, suc, ◌+◌, ◌<◌, ◌≤◌, ◌≡◌, refl, Option, none, some, List, [], ◌∷◌, ◌++◌, arith, ltb,
  length, drop, if◌then◌else◌, length-append, take-append, drop-append, length-drop, All,
  append_assoc, ap, ◌∙◌, sym, Bool, true, false,
}
use neural_mesh_protocol.Prelude.Bytes.{Bytes, uint32_be, read_uint32_be-uint32_be}
use neural_mesh_protocol.Gateway.GrpcWeb.{
  GrpcWebFrame, flag_data, flag_trailers, encode_frame, has_trailer_flag, payload_end, decode_from,
  decode_frames,
}

-- No complete frame is left.
abbrev pub IsIncomplete : Bytes → Type 0
IsIncomplete rest = length rest < payload_end rest

decode_from_incomplete : (fuel : ℕ) (rest : Bytes) → IsIncomplete rest → decode_from fuel rest ≡ []
unfolding decode_from
decode_from_incomplete zero rest h = refl
decode_from_incomplete (suc fuel) rest h = ground arith

-- The fuel makes no difference once it reaches the length of the buffer.
pub decode_from-fuel :
    (fuel more : ℕ) (rest : Bytes)
    → length rest ≤ fuel
    → length rest ≤ more
    → decode_from fuel rest ≡ decode_from more rest
unfolding decode_from
decode_from-fuel zero zero rest h k = refl
decode_from-fuel zero (suc more) rest h k =
    sym (decode_from_incomplete (suc more) rest (omega arith))
decode_from-fuel (suc fuel) zero rest h k = decode_from_incomplete (suc fuel) rest (omega arith)
decode_from-fuel (suc fuel) (suc more) rest h k =
    rw
      (decode_from-fuel fuel more (drop (payload_end rest) rest)
        (omega (arith, length-drop (payload_end rest) rest))
        (omega (arith, length-drop (payload_end rest) rest)))
      refl

abbrev raw : ℕ → Bytes → Bytes
raw flag payload = flag ∷ uint32_be (length payload) ++ payload

decode_from-raw :
    (fuel flag : ℕ) (payload rest : Bytes)
    → length payload < 4294967296
    → decode_from (suc fuel) (raw flag payload ++ rest)
      ≡ record { is_trailer = has_trailer_flag flag; payload = payload } ∷ decode_from fuel rest
unfolding decode_from
decode_from-raw fuel flag payload rest lt =
    let e = read_uint32_be-uint32_be (length payload) flag (payload ++ rest) lt in
    let kept = take-append payload rest (length payload) refl in
    let left = drop-append (raw flag payload) rest (5 + length payload) (omega arith) in
    rw (e, kept, left) (ground (arith, length-append payload rest))

-- `encodeDataFrame` or `encodeTrailerFrame`, by the kind of the frame
abbrev pub encoded : GrpcWebFrame → Option Bytes
encoded f = encode_frame (if f.is_trailer then flag_trailers else flag_data) f.payload

-- two results of the encoder, one after the other
abbrev pub join : Option Bytes → Option Bytes → Option Bytes
join (some a) (some b) = some (a ++ b)
join _ _ = none

-- The bytes of several frames, if all of them can be encoded.
unfoldable pub encode_all : List GrpcWebFrame → Option Bytes
encode_all [] = some []
encode_all (f ∷ frames) = join (encoded f) (encode_all frames)

abbrev Fits : List GrpcWebFrame → Type 0
Fits frames = All (λ f. length f.payload < 4294967296) frames

abbrev raw_frame : GrpcWebFrame → Bytes
raw_frame f = raw (if f.is_trailer then flag_trailers else flag_data) f.payload

abbrev raw_all : List GrpcWebFrame → Bytes
raw_all [] = []
raw_all (f ∷ frames) = raw_frame f ++ raw_all frames

has_trailer_flag-flag : (b : Bool) → has_trailer_flag (if b then flag_trailers else flag_data) ≡ b
has_trailer_flag-flag true = refl
has_trailer_flag-flag false = refl

encode_all-raw :
    (frames : List GrpcWebFrame) → Fits frames → encode_all frames ≡ some (raw_all frames)
unfolding encode_all encode_frame
encode_all-raw [] h = refl
encode_all-raw (f ∷ frames) (short, h) =
    let fits : ltb (length f.payload) 4294967296 ≡ true = ground (arith, short) in
    rw (encode_all-raw frames h, fits) refl

decode_from-raw_all :
    (fuel : ℕ) (frames : List GrpcWebFrame) (rest : Bytes)
    → Fits frames
    → IsIncomplete rest
    → length (raw_all frames ++ rest) ≤ fuel
    → decode_from fuel (raw_all frames ++ rest) ≡ frames
decode_from-raw_all fuel [] rest h incomplete le = decode_from_incomplete fuel rest incomplete
decode_from-raw_all zero (f ∷ frames) rest h incomplete le = absurd (omega arith)
decode_from-raw_all (suc fuel) (f ∷ frames) rest (short, h) incomplete le =
    ap (λ b. decode_from (suc fuel) b) (append_assoc (raw_frame f) (raw_all frames) rest)
    ∙ decode_from-raw fuel _ f.payload (raw_all frames ++ rest) short
    ∙ rw
        (
          has_trailer_flag-flag f.is_trailer,
          decode_from-raw_all fuel frames rest h incomplete (
              omega (
                arith,
                length-append f.payload (raw_all frames ++ rest),
                ap (λ (b : Bytes). length b) (append_assoc f.payload (raw_all frames) rest),
              )),
        )
        refl

-- What is decoded of the bytes with more bytes after them, if there are bytes.
abbrev pub decoded_with : Bytes → Option Bytes → Option (List GrpcWebFrame)
decoded_with rest none = none
decoded_with rest (some bytes) = some (decode_frames (bytes ++ rest))

-- Frames whose payloads have lengths of 32 bits are encoded without an error, and the decoder
-- gives back exactly these frames, with their kinds and in order, from their bytes and the
-- beginning of one more frame.
pub decode_frames-encode_all :
    (frames : List GrpcWebFrame) (rest : Bytes)
    → All (λ f. length f.payload < 4294967296) frames
    → IsIncomplete rest
    → decoded_with rest (encode_all frames) ≡ some frames
unfolding decode_frames
decode_frames-encode_all frames rest h incomplete =
    rw
      (
        encode_all-raw frames h,
        decode_from-raw_all (length (raw_all frames ++ rest)) frames rest h incomplete
            (omega arith),
      )
      refl
