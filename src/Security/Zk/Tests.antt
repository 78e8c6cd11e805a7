-- ===== src/Security/Zk/Tests.antt =====
-- sdks/typescript/src/security/zk.ts: the verification on concrete bytes.
use neural_mesh_protocol.Prelude.{
  ℕ, String, ◌≡◌, ◌↔◌, refl, none, some, [], ◌∷◌, ◌<◌, arith, replicate, All-replicate,
}
use neural_mesh_protocol.Prelude.Bytes.{Bytes}
use neural_mesh_protocol.Prelude.Json.{string, object, empty, entry, member_of}
use neural_mesh_protocol.Crypto.LogicImageId.{derive_logic_image_digest}
use neural_mesh_protocol.Workers.Runtime.{Runtime}
use neural_mesh_protocol.Workers.ZkVerifier.{verified, verify_zk_receipt}
use neural_mesh_protocol.Workers.ZkVerifier.RoundTrip.{request}
use neural_mesh_protocol.Security.Zk.{
  ZkReceipt, accepted, image_id_mismatch, empty_proof, malformed_receipt, journal_failed,
  invalid_seal, journal_matches, seal_matches, verify_parts, verify_proof, verify,
}
use neural_mesh_protocol.Security.Zk.Agreement.{verify-eq-accepted_iff}

zk : Unit {0}
unfolding member_of journal_matches seal_matches verify_parts verify_proof verify
    derive_logic_image_digest
zk = tt

abbrev runtime : Runtime
runtime = record {
  sha256_hex = λ bytes. "ab";
  hmac_sha256 = λ key message. replicate 32 7;
  utf8 = λ t. 123 ∷ 125 ∷ [];
  utf8_text = λ bytes. "{}";
  parse = λ t. some (object (entry "image_id" (string "ab") empty));
  stringify = λ v. "{}";
}

abbrev hex : Bytes → String
hex bytes = "ab"

abbrev sealed_by : ℕ → ZkReceipt
sealed_by seal = record {
  proof = 1 ∷ 0 ∷ 2 ∷ 123 ∷ 125 ∷ replicate 32 seal;
  journal = [];
  image_id = 171 ∷ [];
}

abbrev expected : Bytes
expected = 171 ∷ []

results :
    (verify runtime hex (sealed_by 7) expected (some (9 ∷ [])) ≡ accepted)
    × (verify runtime hex (sealed_by 8) (171 ∷ []) (some (9 ∷ [])) ≡ invalid_seal)
    × (verify runtime hex (sealed_by 8) (172 ∷ []) (some (9 ∷ [])) ≡ image_id_mismatch)
    × (verify runtime hex (record (sealed_by 8) { proof = [] }) (171 ∷ []) none ≡ empty_proof)
    × (verify runtime hex (record (sealed_by 8) { proof = replicate 40 2 }) (171 ∷ []) none
        ≡ malformed_receipt)
    × (verify runtime (λ bytes. "cd") (sealed_by 8) (171 ∷ []) none ≡ journal_failed)
unfolding zk
results = (refl, refl, refl, refl, refl, refl)

verify-eq-accepted_iff_example :
    (verify runtime hex (sealed_by 7) expected (some (9 ∷ [])) ≡ accepted) ↔ (
      ((sealed_by 7).image_id ≡ expected)
      × (verify_zk_receipt runtime
            (request (114 ∷ 49 ∷ []) "ab" (sealed_by 7).proof (some (9 ∷ [])) none)
          ≡ verified))
unfolding zk
verify-eq-accepted_iff_example =
    verify-eq-accepted_iff runtime hex (114 ∷ 49 ∷ []) (sealed_by 7) expected (some (9 ∷ []))
      (
        omega arith,
        (
          omega arith,
          (
            omega arith,
            (omega arith, (omega arith, All-replicate (λ b. b < 256) 32 7 (omega arith))),
          ),
        ),
      )
      refl refl
