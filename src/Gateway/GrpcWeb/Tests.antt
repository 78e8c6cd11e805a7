-- ===== src/Gateway/GrpcWeb/Tests.antt =====
-- sdks/typescript/src/gateway/grpc-web.ts on concrete streams.
use neural_mesh_protocol.Prelude.{
  str_eq as ◌==◌, if◌then◌else◌, ◌≡◌, refl, true, false, List, some, [], ◌∷◌, arith, String,
  decimal,
}
use neural_mesh_protocol.Prelude.Bytes.{Bytes}
use neural_mesh_protocol.Gateway.GrpcWeb.{
  GrpcWebFrame, encode_frame, encode_data_frame, encode_trailer_frame, decode_from, decode_frames,
}
use neural_mesh_protocol.Gateway.GrpcWeb.Framing.{
  encode_all, decoded_with, decode_from-fuel, decode_frames-encode_all,
}

grpc_web : Unit {0}
unfolding encode_frame encode_data_frame encode_trailer_frame decode_from decode_frames encode_all
    decimal
grpc_web = tt

abbrev answer : List GrpcWebFrame
answer =
    record { is_trailer = false; payload = 5 ∷ 6 ∷ [] }
    ∷ record { is_trailer = true; payload = 7 ∷ [] }
    ∷ []

-- bytes that stand for the text of the trailers
abbrev utf8 : String → Bytes
utf8 text = if text == "grpc-status:0\r\ngrpc-message:\r\n" then 1 ∷ 2 ∷ [] else []

frames_of_answer :
    (encode_data_frame (5 ∷ []) ≡ some (0 ∷ 0 ∷ 0 ∷ 0 ∷ 1 ∷ 5 ∷ []))
    × (encode_trailer_frame (λ text. text) utf8 0 "" [] ≡ some (128 ∷ 0 ∷ 0 ∷ 0 ∷ 2 ∷ 1 ∷ 2 ∷ []))
    × (decode_frames (0 ∷ 0 ∷ 0 ∷ 0 ∷ 1 ∷ 5 ∷ 129 ∷ 0 ∷ 0 ∷ 0 ∷ 0 ∷ 0 ∷ 0 ∷ [])
        ≡ record { is_trailer = false; payload = 5 ∷ [] }
          ∷ record { is_trailer = true; payload = [] }
          ∷ [])
unfolding grpc_web
frames_of_answer = (refl, refl, refl)

more_fuel : decode_from 6 (0 ∷ 0 ∷ 0 ∷ 0 ∷ 1 ∷ 5 ∷ []) ≡ decode_from 9 (0 ∷ 0 ∷ 0 ∷ 0 ∷ 1 ∷ 5 ∷ [])
more_fuel = decode_from-fuel 6 9 (0 ∷ 0 ∷ 0 ∷ 0 ∷ 1 ∷ 5 ∷ []) (omega arith) (omega arith)

decode_frames-encode_all_example :
    decoded_with (0 ∷ 0 ∷ 0 ∷ 0 ∷ 4 ∷ 1 ∷ []) (encode_all answer) ≡ some answer
decode_frames-encode_all_example =
    decode_frames-encode_all answer (0 ∷ 0 ∷ 0 ∷ 0 ∷ 4 ∷ 1 ∷ []) (omega arith, (omega arith, tt))
      (omega arith)
