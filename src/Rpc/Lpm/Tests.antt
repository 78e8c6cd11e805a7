-- ===== src/Rpc/Lpm/Tests.antt =====
-- sdks/typescript/src/rpc/codec/lpm.ts on concrete buffers.
use neural_mesh_protocol.Prelude.{◌≡◌, refl, none, some, [], ◌∷◌, ◌++◌, arith, take}
use neural_mesh_protocol.Rpc.Lpm.{encode, decode}
use neural_mesh_protocol.Rpc.Lpm.Framing.{decode-encode, decode-take-encode}

two_messages :
    decode (encode (7 ∷ 8 ∷ []) ++ encode (9 ∷ []))
    ≡ (some (7 ∷ 8 ∷ []), 0 ∷ 0 ∷ 0 ∷ 0 ∷ 1 ∷ 9 ∷ [])
unfolding encode decode
two_messages = refl

decode-encode_example : decode (encode (7 ∷ 8 ∷ []) ++ 0 ∷ 3 ∷ []) ≡ (some (7 ∷ 8 ∷ []), 0 ∷ 3 ∷ [])
decode-encode_example = decode-encode (7 ∷ 8 ∷ []) (0 ∷ 3 ∷ []) (omega arith)

decode-take-encode_example :
    decode (take 6 (encode (7 ∷ 8 ∷ []))) ≡ (none, take 6 (encode (7 ∷ 8 ∷ [])))
decode-take-encode_example = decode-take-encode (7 ∷ 8 ∷ []) 6 (omega arith) (omega arith)
