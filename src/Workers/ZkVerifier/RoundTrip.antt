-- ===== src/Workers/ZkVerifier/RoundTrip.antt =====
-- sdks/typescript/src/workers/: the receipt of the worker that runs logic, at the worker that
-- verifies it.
use neural_mesh_protocol.Prelude.{
  ℕ, ◌<◌, String, Bool, true, false, ◌&&◌, Option, none, some, [], ◌∷◌, ◌++◌, ltb, length, ◌==◌,
  str_eq, if◌then◌else◌, ◌≡◌, ◌⊎◌, refl, sym, ap, ◌∙◌, inl, inr, arith,
}
use neural_mesh_protocol.Prelude.Bytes.{Bytes, byte_at, uint16_be}
use neural_mesh_protocol.Prelude.Json.{Json, member_of}
use neural_mesh_protocol.Crypto.LogicImageId.{
  normalize_logic_source, envelope_body, derive_logic_image_digest,
}
use neural_mesh_protocol.Crypto.LogicImageId.Envelope.{
  normalize_logic_source-normalize_logic_source,
}
use neural_mesh_protocol.Workers.Runtime.{Runtime}
use neural_mesh_protocol.Workers.LogicExecution.{
  is_wasm, logic_bytes, worker_image_id, dataset_hash, journal_of, receipt_of, execution_receipt,
}
use neural_mesh_protocol.Workers.ZkVerifier.{
  ZkVerificationPayload, verify_receipt, verified, local_image_id, verify_zk_receipt,
}
use neural_mesh_protocol.Workers.ZkVerifier.Scan.{try_extract_proxy_output}
use neural_mesh_protocol.Workers.ZkVerifier.Checks.{IsSealed, HasOutput}
use neural_mesh_protocol.Workers.ZkVerifier.Verified.{checked_fields}

-- The two bytes by which `deriveLogicImageDigest` knows a WebAssembly module.
abbrev pub has_magic : Bytes → Bool
has_magic bytes = byte_at bytes 0 == 0 && byte_at bytes 1 == 97

-- A WebAssembly module, or a program: it is no module with or without its envelope, it is no
-- envelope once its envelope is removed, and its text survives UTF-8.
abbrev pub IsLogic : Runtime → Bytes → Type 0
IsLogic runtime logic =
    let normalized : String = normalize_logic_source (runtime.utf8_text logic) in
    (is_wasm logic ≡ true)
    ⊎ ((has_magic logic ≡ false)
        × (has_magic (runtime.utf8 normalized) ≡ false)
        × (runtime.utf8_text (runtime.utf8 normalized) ≡ normalized)
        × (envelope_body normalized ≡ none))

not_wasm : (logic : Bytes) → has_magic logic ≡ false → is_wasm logic ≡ false
unfolding is_wasm
not_wasm logic plain = ground (arith, plain)

digest_plain :
    (runtime : Runtime) (logic : Bytes)
    → has_magic logic ≡ false
    → local_image_id runtime logic
      ≡ runtime.sha256_hex (runtime.utf8 (normalize_logic_source (runtime.utf8_text logic)))
unfolding derive_logic_image_digest
digest_plain runtime logic plain =
    ap
      (λ b.
        if b
        then runtime.sha256_hex logic
        else runtime.sha256_hex (runtime.utf8 (normalize_logic_source (runtime.utf8_text logic))))
      plain

logic_bytes_plain :
    (runtime : Runtime) (logic : Bytes)
    → has_magic logic ≡ false
    → logic_bytes runtime logic ≡ runtime.utf8 (normalize_logic_source (runtime.utf8_text logic))
unfolding logic_bytes
logic_bytes_plain runtime logic plain =
    ap (λ b. if b then logic else runtime.utf8 (normalize_logic_source (runtime.utf8_text logic)))
      (not_wasm logic plain)

-- The worker that runs logic and the worker that verifies it agree on its image identifier, if it is
-- a WebAssembly module, or a program that is no envelope once its envelope is removed, that is not
-- taken for a module, and whose text survives UTF-8.
pub worker_image_id-eq-local_image_id :
    (runtime : Runtime) (logic : Bytes)
    → IsLogic runtime logic
    → worker_image_id runtime logic ≡ local_image_id runtime logic
unfolding worker_image_id logic_bytes
worker_image_id-eq-local_image_id runtime logic (inl wasm) =
    ap
      (λ b.
        local_image_id runtime
          (if b then logic else runtime.utf8 (normalize_logic_source (runtime.utf8_text logic))))
      wasm
worker_image_id-eq-local_image_id runtime logic (inr (plain, still_plain, survives, inner)) =
    let normalized : String = normalize_logic_source (runtime.utf8_text logic) in
    ap (local_image_id runtime) (logic_bytes_plain runtime logic plain)
    ∙ digest_plain runtime (runtime.utf8 normalized) still_plain
    ∙ ap (λ t. runtime.sha256_hex (runtime.utf8 (normalize_logic_source t))) survives
    ∙ ap (λ t. runtime.sha256_hex (runtime.utf8 t))
        (normalize_logic_source-normalize_logic_source (runtime.utf8_text logic) inner)
    ∙ sym (digest_plain runtime logic plain)

-- A receipt at the verifying worker, which expects an output.
abbrev pub request :
    (logic : Bytes) (image_id : String) (receipt : Bytes) (session_secret : Option Bytes)
    (expected_output : Option Json)
    → ZkVerificationPayload
request logic image_id receipt session_secret expected_output = record {
  action = verify_receipt;
  logic_payload = some logic;
  remote_image_id_hex = some image_id;
  zk_receipt = some receipt;
  session_secret = session_secret;
  expected_output = expected_output;
}

journal-HasOutput :
    (runtime : Runtime) (logic : Bytes) (image_id dataset : String) (output : Option Json)
    (fuel now : ℕ)
    → try_extract_proxy_output runtime logic ≡ none
    → HasOutput runtime logic output (journal_of runtime image_id dataset output fuel now)
unfolding journal_of member_of
journal-HasOutput runtime logic image_id dataset none fuel now direct = tt
journal-HasOutput runtime logic image_id dataset (some v) fuel now direct =
    (v, inr (direct, refl), refl)

sealed_receipt-verified :
    (runtime : Runtime) (logic : Bytes) (dataset : String) (output : Option Json) (fuel now : ℕ)
    (secret : Option Bytes) (journal seal : Bytes)
    → runtime.parse (runtime.utf8_text journal)
      ≡ some (journal_of runtime (local_image_id runtime logic) dataset output fuel now)
    → length journal < 65536
    → length seal ≡ 32
    → str_eq (local_image_id runtime logic) "" ≡ false
    → try_extract_proxy_output runtime logic ≡ none
    → IsSealed runtime secret journal seal
    → verify_zk_receipt runtime (
        request logic
          (local_image_id runtime logic)
          (1 ∷ uint16_be (length journal) ++ journal ++ seal)
          secret
          output)
      ≡ verified
unfolding verify_zk_receipt journal_of member_of
sealed_receipt-verified runtime logic dataset output fuel now secret journal seal read short whole
      given direct sealed =
    checked_fields runtime secret output (some logic) (some (local_image_id runtime logic)) _ (
      logic,
      _,
      journal,
      seal,
      refl,
      refl,
      refl,
      given,
      (refl, whole, short),
      (_, read, refl, sealed, journal-HasOutput runtime logic _ dataset output fuel now direct),
    )

made_of :
    (b : Bool) (x receipt : Bytes)
    → (if b then some x else none) ≡ some receipt
    → (b ≡ true) × (receipt ≡ x)
made_of true x receipt e = (refl, sym (cc e))
made_of false x receipt e = absurd (cc e)

hmac-IsSealed :
    (runtime : Runtime) (secret journal : Bytes)
    → IsSealed runtime (some secret) journal (runtime.hmac_sha256 secret journal)
hmac-IsSealed runtime [] journal = tt
hmac-IsSealed runtime (k ∷ secret) journal = refl

-- The journal of an execution, and its bytes.
abbrev pub execution_journal :
    Runtime → (logic : Bytes) (records output : Option Json) (fuel now : ℕ) → Json
execution_journal runtime logic records output fuel now =
    journal_of runtime (local_image_id runtime logic) (dataset_hash runtime records) output fuel now

abbrev pub journal_bytes :
    Runtime → (logic : Bytes) (records output : Option Json) (fuel now : ℕ) → Bytes
journal_bytes runtime logic records output fuel now =
    runtime.utf8 (runtime.stringify (execution_journal runtime logic records output fuel now))

-- The receipt that a worker makes of an execution is verified, with its output and its secret, if
-- the image identifier of the logic is not empty, the text of its journal can be read back, an HMAC
-- has 32 bytes, and the logic carries no output of its own.
pub execution_receipt-verified :
    (runtime : Runtime) (logic secret receipt : Bytes) (records output : Option Json) (fuel now : ℕ)
    → IsLogic runtime logic
    → execution_receipt runtime secret logic records output fuel now ≡ some receipt
    → runtime.parse (runtime.utf8_text (journal_bytes runtime logic records output fuel now))
      ≡ some (execution_journal runtime logic records output fuel now)
    → length (runtime.hmac_sha256 secret (journal_bytes runtime logic records output fuel now)) ≡ 32
    → str_eq (local_image_id runtime logic) "" ≡ false
    → try_extract_proxy_output runtime logic ≡ none
    → verify_zk_receipt runtime
        (request logic (worker_image_id runtime logic) receipt (some secret) output)
      ≡ verified
unfolding execution_receipt receipt_of
execution_receipt-verified runtime logic secret receipt records output fuel now is_logic made read
      whole given direct =
    let same = worker_image_id-eq-local_image_id runtime logic is_logic in
    let journal : Bytes = journal_bytes runtime logic records output fuel now in
    let made_here : receipt_of runtime secret journal ≡ some receipt =
      ap
        (λ i. receipt_of runtime secret (
          runtime.utf8 (
            runtime.stringify
              (journal_of runtime i (dataset_hash runtime records) output fuel now))))
        (sym same)
      ∙ made in
    let (short, is_made) = made_of (ltb (length journal) 65536) _ receipt made_here in
    ap (λ i. verify_zk_receipt runtime (request logic i receipt (some secret) output)) same
    ∙ ap
        (λ r.
          verify_zk_receipt runtime
            (request logic (local_image_id runtime logic) r (some secret) output))
        is_made
    ∙ sealed_receipt-verified runtime logic (dataset_hash runtime records) output fuel now
        (some secret) journal (runtime.hmac_sha256 secret journal) read (ground (arith, short))
        whole given direct (hmac-IsSealed runtime secret journal)
