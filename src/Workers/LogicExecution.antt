-- ===== src/Workers/LogicExecution.antt =====
-- sdks/typescript/src/workers/logic-execution.ts: the age of a session, the bytes that identify the
-- logic, and the receipt of an execution.
use neural_mesh_protocol.Prelude.{
  ℕ, ◌+◌, ◌-◌, String, Bool, ◌&&◌, Option, none, some, ◌∷◌, ◌++◌, ltb, length, ◌==◌, if◌then◌else◌,
  decimal,
}
use neural_mesh_protocol.Prelude.Bytes.{Bytes, byte_at, uint16_be}
use neural_mesh_protocol.Prelude.Json.{
  Json, number, string, array, object, nil, empty, entry, is_truthy,
}
use neural_mesh_protocol.Crypto.LogicImageId.{normalize_logic_source, derive_logic_image_digest}
use neural_mesh_protocol.Workers.Runtime.{Runtime, output_text}

pub data SessionAge : Type 0 where
  accepted : SessionAge
  expired : (age : ℕ) → SessionAge
  in_future : SessionAge

-- the check of `data.sessionTimestamp`
unfoldable pub check_session_timestamp : (now : ℕ) → Option ℕ → SessionAge
check_session_timestamp now none = accepted
check_session_timestamp now (some timestamp) =
    if ltb (timestamp + 3600000) now
    then expired (now - timestamp)
    else if ltb (now + 60000) timestamp
    then in_future
    else accepted

-- "\0asm"
unfoldable pub is_wasm : Bytes → Bool
is_wasm payload =
    byte_at payload 0 == 0
    && byte_at payload 1 == 97
    && byte_at payload 2 == 115
    && byte_at payload 3 == 109

-- the logic that is run, as bytes: a WebAssembly module, or a program without its envelope
unfoldable pub logic_bytes : Runtime → (decrypted_payload : Bytes) → Bytes
unfolding is_wasm
logic_bytes runtime decrypted_payload =
    if is_wasm decrypted_payload
    then decrypted_payload
    else runtime.utf8 (normalize_logic_source (runtime.utf8_text decrypted_payload))

-- `imageId`
unfoldable pub worker_image_id : Runtime → (decrypted_payload : Bytes) → String
unfolding logic_bytes
worker_image_id runtime decrypted_payload =
    derive_logic_image_digest runtime.sha256_hex runtime.utf8 runtime.utf8_text
      (logic_bytes runtime decrypted_payload)

abbrev or_empty : Option Json → Json
or_empty none = array nil
or_empty (some records) = if is_truthy records then records else array nil

-- `datasetHash`
unfoldable pub dataset_hash : Runtime → (records : Option Json) → String
dataset_hash runtime records =
    runtime.sha256_hex (runtime.utf8 (runtime.stringify (or_empty records)))

-- The journal of an execution.
unfoldable pub journal_of :
    Runtime → (image_id dataset : String) → (final_output : Option Json) → (fuel now : ℕ) → Json
journal_of runtime image_id dataset final_output fuel now = object (
    entry "image_id" (string image_id) (
      entry "dataset_hash" (string dataset) (
        entry "output_hash"
          (string (runtime.sha256_hex (runtime.utf8 (output_text runtime final_output))))
          (entry "fuel" (number (decimal fuel)) (entry "ts" (number (decimal now)) empty)))))

-- The receipt of a journal; `writeUInt16BE` raises an error on a longer one.
unfoldable pub receipt_of : Runtime → (session_secret journal : Bytes) → Option Bytes
receipt_of runtime session_secret journal =
    if ltb (length journal) 65536
    then some
        (1 ∷ uint16_be (length journal) ++ journal ++ runtime.hmac_sha256 session_secret journal)
    else none

-- The receipt of an execution, from its decrypted logic and its final output.
unfoldable pub execution_receipt :
    Runtime
    → (session_secret decrypted_payload : Bytes) → (records final_output : Option Json)
    → (fuel now : ℕ) → Option Bytes
unfolding receipt_of
execution_receipt runtime session_secret decrypted_payload records final_output fuel now =
    receipt_of runtime session_secret (
      runtime.utf8 (
        runtime.stringify (
          journal_of runtime (worker_image_id runtime decrypted_payload)
            (dataset_hash runtime records) final_output fuel now)))
