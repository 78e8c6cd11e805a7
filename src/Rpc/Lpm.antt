-- ===== src/Rpc/Lpm.antt =====
-- sdks/typescript/src/rpc/codec/lpm.ts: gRPC's length-prefixed messages.
pub mod Framing
mod Tests
use neural_mesh_protocol.Prelude.{
  ℕ, ◌+◌, Option, none, some, List, [], ◌∷◌, ◌++◌, ltb, length, take, drop, if◌then◌else◌,
}
use neural_mesh_protocol.Prelude.Bytes.{Bytes, uint32_be, read_uint32_be}

-- `LpmCodec.encode`: `setUint32` writes the length modulo 2 ^ 32
unfoldable pub encode : Bytes → Bytes
encode payload = 0 ∷ uint32_be (length payload) ++ payload

-- `LpmCodec.decode`
unfoldable pub decode : Bytes → Option Bytes × Bytes
decode buffer =
    if ltb (length buffer) 5
    then (none, buffer)
    else if ltb (length buffer) (5 + read_uint32_be buffer 1)
    then (none, buffer)
    else (
      some (take (read_uint32_be buffer 1) (drop 5 buffer)),
      drop (5 + read_uint32_be buffer 1) buffer,
    )
