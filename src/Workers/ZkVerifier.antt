-- ===== src/Workers/ZkVerifier.antt =====
-- sdks/typescript/src/workers/zk-verifier.ts: the verification of a receipt. A message is a value
-- with the parts that its text is made of.
pub mod Scan
pub mod Checks
pub mod Verified
pub mod RoundTrip
mod Tests
use neural_mesh_protocol.Prelude.{
  ℕ, ◌+◌, String, Bool, not, Option, none, some, List, [], ◌∷◌, ltb, length, take, drop, ◌==◌,
  str_eq, if◌then◌else◌,
}
use neural_mesh_protocol.Prelude.Bytes.{Bytes, byte_at, read_uint16_be, bytes_eq}
use neural_mesh_protocol.Prelude.Json.{Json, string, array, member}
use neural_mesh_protocol.Crypto.LogicImageId.{derive_logic_image_digest}
use neural_mesh_protocol.Workers.Runtime.{Runtime, output_text}
use neural_mesh_protocol.Workers.ZkVerifier.Scan.{try_extract_proxy_output}

pub data Action : Type 0 where
  verify_receipt warmup unknown : Action

pub record ZkVerificationPayload : Type 0 where
  pub action : Action
  pub logic_payload : Option Bytes
  pub remote_image_id_hex : Option String
  pub zk_receipt : Option Bytes
  pub session_secret : Option Bytes
  pub expected_output : Option Json

-- `{ verified, message }`: `verified` and `warm` are those with `verified: true`.
pub data Verdict : Type 0 where
  verified : Verdict
  warm : Verdict
  missing_fields : Verdict
  integrity_violation : (local remote : String) → Verdict
  receipt_too_short : Verdict
  unknown_receipt_version : ℕ → Verdict
  invalid_seal_length : Verdict
  journal_image_id_mismatch : Verdict
  journal_unreadable : Verdict
  invalid_seal : Verdict
  output_hash_mismatch : Verdict
  verification_error : Verdict

abbrev pub or_verdict : Option Verdict → Verdict → Verdict
or_verdict none other = other
or_verdict (some v) other = v

-- `journalData.image_id !== localImageIdHex`; the message takes a slice, which only a text and an
-- array have
unfoldable pub check_journal_image : (local : String) → (image_id : Option Json) → Option Verdict
check_journal_image local (some (string t)) =
    if str_eq t local then none else some journal_image_id_mismatch
check_journal_image local (some (array vs)) = some journal_image_id_mismatch
check_journal_image local _ = some journal_unreadable

-- `journalData.output_hash !== expectedOutputHash`, outside of the `try`
unfoldable pub check_output_hash :
    (expected : String) → (output_hash : Option Json) → Option Verdict
check_output_hash expected (some (string t)) =
    if str_eq t expected then none else some output_hash_mismatch
check_output_hash expected (some (array vs)) = some output_hash_mismatch
check_output_hash expected _ = some verification_error

-- `proxyOutput !== null ? proxyOutput : expectedOutput`
abbrev pub actual_expected : (proxy_output : Option Json) → Json → Json
actual_expected none expected_output = expected_output
actual_expected (some v) expected_output = v

module _ (runtime : Runtime) where
  -- `deriveImageId(logicPayload).toString("hex")`
  abbrev pub local_image_id : (logic_payload : Bytes) → String
  local_image_id logic_payload =
      derive_logic_image_digest runtime.sha256_hex runtime.utf8 runtime.utf8_text logic_payload

  -- the check of the seal, where there is a session secret
  unfoldable pub check_seal :
      (session_secret : Option Bytes) → (journal seal : Bytes) → Option Verdict
  check_seal none journal seal = none
  check_seal (some []) journal seal = none
  check_seal (some (k ∷ secret)) journal seal =
      if bytes_eq seal (runtime.hmac_sha256 (k ∷ secret) journal) then none else some invalid_seal

  -- the hash of the output that is expected
  unfoldable pub expected_output_hash : (logic_payload : Bytes) → Json → String
  expected_output_hash logic_payload expected_output = runtime.sha256_hex (
      runtime.utf8 (
        output_text runtime (
          some (actual_expected (try_extract_proxy_output runtime logic_payload) expected_output))))

  unfoldable pub check_output :
      (logic_payload : Bytes) → (expected_output : Option Json) → Json → Option Verdict
  unfolding check_output_hash expected_output_hash
  check_output logic_payload none journal_data = none
  check_output logic_payload (some expected_output) journal_data =
      check_output_hash (expected_output_hash logic_payload expected_output)
        (member "output_hash" journal_data)

  unfoldable pub check_journal :
      (logic_payload : Bytes) (session_secret : Option Bytes) (expected_output : Option Json)
      (journal seal : Bytes)
      → Option Json
      → Verdict
  unfolding check_journal_image check_seal check_output
  check_journal logic_payload session_secret expected_output journal seal none = journal_unreadable
  check_journal logic_payload session_secret expected_output journal seal (some journal_data) =
      or_verdict
        (check_journal_image (local_image_id logic_payload) (member "image_id" journal_data))
        (or_verdict (check_seal session_secret journal seal)
          (or_verdict (check_output logic_payload expected_output journal_data) verified))

  unfoldable pub check_parts :
      (logic_payload : Bytes) (session_secret : Option Bytes) (expected_output : Option Json)
      (journal seal : Bytes)
      → Verdict
  unfolding check_journal
  check_parts logic_payload session_secret expected_output journal seal =
      if not (length seal == 32)
      then invalid_seal_length
      else check_journal logic_payload session_secret expected_output journal seal
          (runtime.parse (runtime.utf8_text journal))

  unfoldable pub check_receipt :
      (logic_payload : Bytes) (session_secret : Option Bytes) (expected_output : Option Json)
      (receipt : Bytes)
      → Verdict
  unfolding check_parts
  check_receipt logic_payload session_secret expected_output receipt =
      if ltb (length receipt) 35
      then receipt_too_short
      else if not (byte_at receipt 0 == 1)
      then unknown_receipt_version (byte_at receipt 0)
      else check_parts logic_payload session_secret expected_output
          (take (read_uint16_be receipt 1) (drop 3 receipt))
          (drop (3 + read_uint16_be receipt 1) receipt)

  unfoldable pub check_image :
      (logic_payload : Bytes) (remote : String) (session_secret : Option Bytes)
      (expected_output : Option Json) (receipt : Bytes)
      → Verdict
  unfolding check_receipt
  check_image logic_payload remote session_secret expected_output receipt =
      if not (str_eq (local_image_id logic_payload) remote)
      then integrity_violation (local_image_id logic_payload) remote
      else check_receipt logic_payload session_secret expected_output receipt

  unfoldable pub check_fields :
      (logic_payload : Option Bytes) (remote_image_id_hex : Option String)
      (zk_receipt : Option Bytes) (session_secret : Option Bytes) (expected_output : Option Json)
      → Verdict
  unfolding check_image
  check_fields (some logic) (some remote) (some receipt) session_secret expected_output =
      if str_eq remote ""
      then missing_fields
      else check_image logic remote session_secret expected_output receipt
  check_fields _ _ _ session_secret expected_output = missing_fields

  -- `verifyZkReceipt`
  unfoldable pub verify_zk_receipt : ZkVerificationPayload → Verdict
  unfolding check_fields
  verify_zk_receipt payload =
      check_fields payload.logic_payload payload.remote_image_id_hex payload.zk_receipt
        payload.session_secret payload.expected_output

  abbrev pub act : Action → ZkVerificationPayload → Verdict
  act verify_receipt task = verify_zk_receipt task
  act warmup task = warm
  act unknown task = verification_error

  -- `workerHandler`
  unfoldable pub worker_handler : ZkVerificationPayload → Verdict
  worker_handler task = act task.action task
