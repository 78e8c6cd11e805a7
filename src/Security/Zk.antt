-- ===== src/Security/Zk.antt =====
-- sdks/typescript/src/security/zk.ts: the client's own verification of a receipt.
pub mod Agreement
mod Tests
use neural_mesh_protocol.Prelude.{
  ℕ, ◌+◌, String, Bool, true, false, not, ◌||◌, Option, none, some, [], ◌∷◌, ltb, length, take,
  drop, ◌==◌, str_eq, if◌then◌else◌,
}
use neural_mesh_protocol.Prelude.Bytes.{Bytes, byte_at, read_uint16_be, bytes_eq}
use neural_mesh_protocol.Prelude.Json.{Json, string, member}
use neural_mesh_protocol.Workers.Runtime.{Runtime}

-- `ZkReceipt`, of which the check does not read the journal
pub record ZkReceipt : Type 0 where
  pub proof : Bytes
  pub journal : Bytes
  pub image_id : Bytes

-- `true`, or the error that is thrown
pub data ZkResult : Type 0 where
  accepted : ZkResult
  image_id_mismatch : ZkResult
  empty_proof : ZkResult
  malformed_receipt : ZkResult
  invalid_seal_length : ZkResult
  journal_failed : ZkResult
  invalid_seal : ZkResult

abbrev pub is_text : String → Option Json → Bool
is_text id (some (string t)) = str_eq t id
is_text id _ = false

-- The `try`: its `catch` takes the error of a mismatch too.
unfoldable pub journal_matches : (image_id : String) → Option Json → Bool
journal_matches image_id none = false
journal_matches image_id (some journal_data) = is_text image_id (member "image_id" journal_data)

module _ (runtime : Runtime) (hex : Bytes → String) where
  unfoldable pub seal_matches : (session_secret : Option Bytes) → (journal seal : Bytes) → Bool
  seal_matches none journal seal = true
  seal_matches (some []) journal seal = true
  seal_matches (some (k ∷ secret)) journal seal =
      bytes_eq seal (runtime.hmac_sha256 (k ∷ secret) journal)

  unfoldable pub verify_parts :
      (image_id : String) (session_secret : Option Bytes) (journal seal : Bytes) → ZkResult
  unfolding journal_matches seal_matches
  verify_parts image_id session_secret journal seal =
      if not (length seal == 32)
      then invalid_seal_length
      else if not (journal_matches image_id (runtime.parse (runtime.utf8_text journal)))
      then journal_failed
      else if not (seal_matches session_secret journal seal)
      then invalid_seal
      else accepted

  unfoldable pub verify_proof :
      (image_id : String) (session_secret : Option Bytes) (proof : Bytes) → ZkResult
  unfolding verify_parts
  verify_proof image_id session_secret proof =
      if length proof == 0
      then empty_proof
      else if ltb (length proof) 35 || not (byte_at proof 0 == 1)
      then malformed_receipt
      else verify_parts image_id session_secret (take (read_uint16_be proof 1) (drop 3 proof))
          (drop (3 + read_uint16_be proof 1) proof)

  -- `ZkVerifier.verify`
  unfoldable pub verify :
      ZkReceipt → (expected_image_id : Bytes) (session_secret : Option Bytes) → ZkResult
  unfolding verify_proof
  verify receipt expected_image_id session_secret =
      if not (bytes_eq receipt.image_id expected_image_id)
      then image_id_mismatch
      else verify_proof (hex receipt.image_id) session_secret receipt.proof
