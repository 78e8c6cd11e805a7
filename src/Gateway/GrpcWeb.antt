-- ===== src/Gateway/GrpcWeb.antt =====
-- sdks/typescript/src/gateway/grpc-web.ts: the frames of gRPC-Web. `writeUInt32BE` throws where the length has more
-- than 32 bits: an encoder returns `none` there.
pub mod Framing
mod Tests
use Prim.Native.String
use neural_mesh_protocol.Prelude.{
  ℕ, zero, suc, ◌+◌, ◌/◌, ◌%◌, String, Bool, true, false, Option, none, some, List, [], ◌∷◌, ◌++◌,
  ltb, leb, ◌==◌, length, take, drop, if◌then◌else◌, decimal,
}
use neural_mesh_protocol.Prelude.Bytes.{Bytes, uint32_be, byte_at, read_uint32_be}

abbrev pub flag_data : ℕ
flag_data = 0

abbrev pub flag_trailers : ℕ
flag_trailers = 128

pub record GrpcWebFrame : Type 0 where
  pub is_trailer : Bool
  pub payload : Bytes

-- a header and its payload
unfoldable pub encode_frame : (flag : ℕ) → Bytes → Option Bytes
encode_frame flag payload =
    if ltb (length payload) 4294967296
    then some (flag ∷ uint32_be (length payload) ++ payload)
    else none

-- `encodeDataFrame`
unfoldable pub encode_data_frame : Bytes → Option Bytes
encode_data_frame payload = encode_frame flag_data payload

-- `${lines.join("\r\n")}\r\n`
trailer_lines : List (String × String) → String
trailer_lines [] = ""
trailer_lines ((key, value) ∷ trailers) =
    String.◌++◌ key
      (String.◌++◌ ":" (String.◌++◌ value (String.◌++◌ "\r\n" (trailer_lines trailers))))

-- `encode_uri_component` and `utf8` are the runtime's `encodeURIComponent` and `Buffer.from`, and
-- the custom trailers are in the order of `Object.entries`.
module _ (encode_uri_component : String → String) (utf8 : String → Bytes) where
  -- `encodeTrailerFrame`
  unfoldable pub encode_trailer_frame :
      (status : ℕ) (message : String) (custom_trailers : List (String × String)) → Option Bytes
  unfolding trailer_lines
  encode_trailer_frame status message custom_trailers = encode_frame flag_trailers (
      utf8 (
        trailer_lines (
          ("grpc-status", decimal status)
          ∷ ("grpc-message", encode_uri_component message)
          ∷ custom_trailers)))

-- `(flag & FLAG_TRAILERS) === FLAG_TRAILERS`
abbrev pub has_trailer_flag : ℕ → Bool
has_trailer_flag flag = flag / 128 % 2 == 1

abbrev pub payload_end : Bytes → ℕ
payload_end rest = 5 + read_uint32_be rest 1

-- The loop of `decodeFrames`; `rest` is the buffer from `offset` on.
unfoldable pub decode_from : (fuel : ℕ) → (rest : Bytes) → List GrpcWebFrame
decode_from zero rest = []
decode_from (suc fuel) rest =
    let frames = decode_from fuel (drop (payload_end rest) rest) in
    if ltb (length rest) 5
    then []
    else if ltb (length rest) (payload_end rest)
    then []
    else record {
      is_trailer = has_trailer_flag (byte_at rest 0);
      payload = take (read_uint32_be rest 1) (drop 5 rest);
    }
      ∷ frames

-- `decodeFrames`: every frame takes five bytes at least, so that the length of the buffer is
-- enough fuel
unfoldable pub decode_frames : Bytes → List GrpcWebFrame
decode_frames buffer = decode_from (length buffer) buffer
