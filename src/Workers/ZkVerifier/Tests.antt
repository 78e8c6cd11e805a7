-- ===== src/Workers/ZkVerifier/Tests.antt =====
-- sdks/typescript/src/workers/zk-verifier.ts: receipts on concrete bytes.
use neural_mesh_protocol.Prelude.{◌≡◌, refl, inr, none, some, [], ◌∷◌, replicate, includes, decimal}
use neural_mesh_protocol.Prelude.Bytes.{Bytes}
use neural_mesh_protocol.Prelude.Json.{Json, string, number, object, empty, entry, member_of}
use neural_mesh_protocol.Prelude.Prefix.{strip_prefix}
use neural_mesh_protocol.Prelude.Trim.{is_space, trim, trim_start, trim_end, keep_char}
use neural_mesh_protocol.Crypto.LogicImageId.{
  after_brace, after_header, is_blank, is_end, until_end, envelope_body, normalize_logic_source,
  derive_logic_image_digest,
}
use neural_mesh_protocol.Crypto.LogicImageId.Envelope.{wrap, normalize_logic_source-wrap}
use neural_mesh_protocol.Workers.Runtime.{Runtime, output_text}
use neural_mesh_protocol.Workers.LogicExecution.{
  accepted, expired, in_future, check_session_timestamp, is_wasm, logic_bytes, worker_image_id,
  dataset_hash, journal_of, receipt_of, execution_receipt,
}
use neural_mesh_protocol.Workers.ZkVerifier.{
  verified, warm, unknown, warmup, receipt_too_short, invalid_seal, verification_error,
  integrity_violation, check_journal_image, check_output_hash, check_seal, expected_output_hash,
  check_output, check_journal, check_parts, check_receipt, check_image, check_fields,
  verify_zk_receipt, worker_handler,
}
use neural_mesh_protocol.Workers.ZkVerifier.Scan.{
  scan_brace, scan_char, is_closed, scan_object, scan_object_of, from_brace, proxy_output,
  try_extract_proxy_output,
}
use neural_mesh_protocol.Workers.ZkVerifier.RoundTrip.{
  request, worker_image_id-eq-local_image_id, execution_receipt-verified,
}

receipts : Unit {0}
unfolding includes decimal member_of strip_prefix is_space trim trim_start trim_end keep_char
    after_brace after_header is_blank is_end until_end envelope_body normalize_logic_source
    derive_logic_image_digest wrap output_text check_session_timestamp is_wasm logic_bytes
    worker_image_id dataset_hash journal_of receipt_of execution_receipt check_journal_image
    check_output_hash check_seal expected_output_hash check_output check_journal check_parts
    check_receipt check_image check_fields verify_zk_receipt worker_handler scan_brace scan_char
    is_closed scan_object from_brace proxy_output try_extract_proxy_output
receipts = tt

sessions :
    (check_session_timestamp 3700000 (some 100000) ≡ accepted)
    × (check_session_timestamp 3700001 (some 100000) ≡ expired 3600001)
    × (check_session_timestamp 5 (some 60006) ≡ in_future)
    × (check_session_timestamp 5 none ≡ accepted)
unfolding receipts
sessions = (refl, refl, refl, refl)

-- Braces in quotes do not count, and an escaped quote closes none.
scans :
    (scan_object_of (from_brace "f({\"a\\\"}\": {'}': 1}}, {})") ≡ some "{\"a\\\"}\": {'}': 1}}")
    × (scan_object_of (from_brace "f({a: {}") ≡ none)
unfolding receipts
scans = (refl, refl)

envelopes :
    (normalize_logic_source " @LIOP{v1}\nreturn 1\n@END\n" ≡ "return 1")
    × (normalize_logic_source "@LIOP{v1} return 1" ≡ "@LIOP{v1} return 1")
    × (normalize_logic_source "@LIOP{}x@END" ≡ "@LIOP{}x@END")
unfolding receipts
envelopes = (refl, refl, refl)

unwrapped : normalize_logic_source (wrap "v1" "f(\"@END\")\n") ≡ "f(\"@END\")"
unfolding receipts
unwrapped = normalize_logic_source-wrap "v1" "f(\"@END\")\n" refl refl

abbrev journal : Json
journal = object (
    entry "image_id" (string "h") (
      entry "dataset_hash" (string "h") (
        entry "output_hash" (string "h")
          (entry "fuel" (number "5") (entry "ts" (number "9") empty)))))

-- One hash, one key and one text.
abbrev runtime : Runtime
runtime = record {
  sha256_hex = λ bytes. "h";
  hmac_sha256 = λ key message. replicate 32 7;
  utf8 = λ t. 123 ∷ 125 ∷ [];
  utf8_text = λ bytes. "return 1";
  parse = λ t. some journal;
  stringify = λ v. "{}";
}

abbrev logic : Bytes
logic = 114 ∷ 49 ∷ []

abbrev receipt : Bytes
receipt = 1 ∷ 0 ∷ 2 ∷ 123 ∷ 125 ∷ replicate 32 7

verdicts :
    (verify_zk_receipt runtime (request logic "h" (1 ∷ 0 ∷ []) (some (9 ∷ [])) none)
      ≡ receipt_too_short)
    × (verify_zk_receipt runtime (request logic "g" receipt none none)
        ≡ integrity_violation "h" "g")
    × (verify_zk_receipt runtime
          (request logic "h" (1 ∷ 0 ∷ 2 ∷ 123 ∷ 125 ∷ replicate 32 8) (some (9 ∷ [])) none)
        ≡ invalid_seal)
    × (worker_handler runtime (record (request logic "h" receipt none none) { action = warmup })
        ≡ warm)
    × (worker_handler runtime (record (request logic "h" receipt none none) { action = unknown })
        ≡ verification_error)
unfolding receipts
verdicts = (refl, refl, refl, refl, refl)

same_image_id : worker_image_id runtime logic ≡ "h"
unfolding receipts
same_image_id = worker_image_id-eq-local_image_id runtime logic (inr (refl, refl, refl, refl))

execution_receipt-verified_example :
    verify_zk_receipt runtime
      (request logic (worker_image_id runtime logic) receipt (some (9 ∷ [])) (some (string "42")))
    ≡ verified
unfolding receipts
execution_receipt-verified_example =
    execution_receipt-verified runtime logic (9 ∷ []) receipt none (some (string "42")) 5 9
      (inr (refl, refl, refl, refl)) refl refl refl refl refl
