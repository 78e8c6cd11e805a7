-- ===== src/Rpc/Lpm/Framing.antt =====
-- sdks/typescript/src/rpc/codec/lpm.ts: a stream of messages, encoded and decoded.
use neural_mesh_protocol.Prelude.{
  ℕ, zero, suc, ◌+◌, ◌<◌, ◌≤◌, ◌≡◌, refl, none, some, ◌∷◌, ◌++◌, arith, length, take, drop,
  length-append, take-append, drop-append, length-take, ◌∙◌,
}
use neural_mesh_protocol.Prelude.Bytes.{Bytes, uint32_be, read_uint32_be, read_uint32_be-uint32_be}
use neural_mesh_protocol.Rpc.Lpm.{encode, decode}

decode_short :
    (buffer : Bytes) → length buffer < 5 + read_uint32_be buffer 1 → decode buffer ≡ (none, buffer)
unfolding decode
decode_short buffer short = ground arith

decode_whole :
    (buffer : Bytes) (n : ℕ)
    → read_uint32_be buffer 1 ≡ n
    → 5 + n ≤ length buffer
    → decode buffer ≡ (some (take n (drop 5 buffer)), drop (5 + n) buffer)
unfolding decode
decode_whole buffer n e le = rw e (ground (arith, e))

-- A message whose length has 32 bits comes back, with the bytes after it as the remaining buffer.
pub decode-encode :
    (payload rest : Bytes)
    → length payload < 4294967296
    → decode (encode payload ++ rest) ≡ (some payload, rest)
unfolding encode
decode-encode payload rest lt =
    decode_whole (encode payload ++ rest) (length payload)
      (read_uint32_be-uint32_be (length payload) 0 (payload ++ rest) lt)
      (omega (arith, length-append payload rest))
    ∙ rw
        (
          take-append payload rest (length payload) refl,
          drop-append (encode payload) rest (5 + length payload) (omega arith),
        )
        refl

-- The first `n` bytes of a message whose length has 32 bits, but not all of it, are left in the
-- buffer.
pub decode-take-encode :
    (payload : Bytes) (n : ℕ)
    → length payload < 4294967296
    → n < 5 + length payload
    → decode (take n (encode payload)) ≡ (none, take n (encode payload))
unfolding encode
decode-take-encode payload zero lt short = decode_short _ (omega arith)
decode-take-encode payload (suc zero) lt short = decode_short _ (omega arith)
decode-take-encode payload (suc (suc zero)) lt short = decode_short _ (omega arith)
decode-take-encode payload (suc (suc (suc zero))) lt short = decode_short _ (omega arith)
decode-take-encode payload (suc (suc (suc (suc zero)))) lt short = decode_short _ (omega arith)
decode-take-encode payload (suc (suc (suc (suc (suc k))))) lt short =
    decode_short (0 ∷ uint32_be (length payload) ++ take k payload) (
      omega (
        arith,
        length-take k payload,
        read_uint32_be-uint32_be (length payload) 0 (take k payload) lt,
      ))
