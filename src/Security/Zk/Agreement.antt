-- ===== src/Security/Zk/Agreement.antt =====
-- sdks/typescript/src/security/zk.ts and workers/zk-verifier.ts: the two verifications of a receipt.
use neural_mesh_protocol.Prelude.{
  ℕ, ◌+◌, ◌≤◌, String, Bool, true, false, not, ◌||◌, Option, none, some, [], ◌∷◌, ltb, length, take,
  drop, ◌==◌, str_eq, str_eq_iff, if◌then◌else◌, ◌≡◌, ◌↔◌, refl, sym, ap, ◌∙◌, inl, inr, arith,
  Bool-cases,
}
use neural_mesh_protocol.Prelude.Bytes.{Bytes, byte_at, read_uint16_be, bytes_eq, bytes_eq_iff}
use neural_mesh_protocol.Prelude.Json.{Json, null, boolean, number, string, array, object, member}
use neural_mesh_protocol.Workers.Runtime.{Runtime}
use neural_mesh_protocol.Workers.ZkVerifier.{
  verified, local_image_id, check_fields, check_receipt, check_image, verify_zk_receipt,
  missing_fields,
}
use neural_mesh_protocol.Workers.ZkVerifier.Checks.{
  IsBuffer, IsSealed, parts-IsReceipt, receipt-IsReceipt,
}
use neural_mesh_protocol.Workers.ZkVerifier.Verified.{Attests, check_receipt_iff, check_image_iff}
use neural_mesh_protocol.Workers.ZkVerifier.RoundTrip.{request}
use neural_mesh_protocol.Security.Zk.{
  ZkReceipt, ZkResult, accepted, empty_proof, malformed_receipt, invalid_seal_length,
  journal_failed, invalid_seal, is_text, journal_matches, seal_matches, verify_parts, verify_proof,
  verify,
}

is_text_iff : (id : String) (m : Option Json) → (is_text id m ≡ true) ↔ (m ≡ some (string id))
is_text_iff id none = ((λ e. absurd (cc e)), λ e. absurd (cc e))
is_text_iff id (some (string t)) =
    ((λ h. ap (λ x. some (string x)) ((str_eq_iff t id).0 h)), λ e. (str_eq_iff t id).1 (cc e))
is_text_iff id (some null) = ((λ e. absurd (cc e)), λ e. absurd (cc e))
is_text_iff id (some (boolean b)) = ((λ e. absurd (cc e)), λ e. absurd (cc e))
is_text_iff id (some (number b)) = ((λ e. absurd (cc e)), λ e. absurd (cc e))
is_text_iff id (some (array b)) = ((λ e. absurd (cc e)), λ e. absurd (cc e))
is_text_iff id (some (object b)) = ((λ e. absurd (cc e)), λ e. absurd (cc e))

journal_matches_iff :
    (id : String) (o : Option Json)
    → (journal_matches id o ≡ true)
      ↔ ((d : Json) × (o ≡ some d) × (member "image_id" d ≡ some (string id)))
unfolding journal_matches
journal_matches_iff id none = ((λ e. absurd (cc e)), λ (d, e, h). absurd (cc e))
journal_matches_iff id (some d) = (
  λ h. (d, refl, (is_text_iff id (member "image_id" d)).0 h),
  λ (d', e, h). ap (journal_matches id) e ∙ (is_text_iff id (member "image_id" d')).1 h,
)

module _ (runtime : Runtime) (hex : Bytes → String) where
  seal_matches_iff :
      (secret : Option Bytes) (journal seal : Bytes)
      → (seal_matches runtime hex secret journal seal ≡ true) ↔ IsSealed runtime secret journal seal
  unfolding seal_matches
  seal_matches_iff none journal seal = ((λ _. tt), λ _. refl)
  seal_matches_iff (some []) journal seal = ((λ _. tt), λ _. refl)
  seal_matches_iff (some (k ∷ secret)) journal seal =
      bytes_eq_iff seal (runtime.hmac_sha256 (k ∷ secret) journal)

  tests-accepted :
      (a b c : Bool)
      → ((if not a
            then invalid_seal_length
            else if not b
            then journal_failed
            else if not c
            then invalid_seal
            else accepted)
          ≡ accepted)
        ↔ ((a ≡ true) × (b ≡ true) × (c ≡ true))
  tests-accepted a b c = ground arith

  proof-accepted :
      (n first : ℕ) (r : ZkResult)
      → ((if n == 0
            then empty_proof
            else if ltb n 35 || not (first == 1)
            then malformed_receipt
            else r)
          ≡ accepted)
        ↔ ((35 ≤ n) × (first ≡ 1) × (r ≡ accepted))
  proof-accepted n first r = ground arith

  verify_parts_iff :
      (logic : Bytes) (id : String) (secret : Option Bytes) (journal seal : Bytes)
      → id ≡ local_image_id runtime logic
      → (verify_parts runtime hex id secret journal seal ≡ accepted)
        ↔ ((length seal ≡ 32) × Attests runtime logic secret none journal seal)
  unfolding verify_parts
  verify_parts_iff logic id secret journal seal same =
      let tests =
        tests-accepted (length seal == 32) _ (seal_matches runtime hex secret journal seal) in
      let read = journal_matches_iff id (runtime.parse (runtime.utf8_text journal)) in
      let sealed = seal_matches_iff secret journal seal in
      (
        λ e.
            let (whole, journal_ok, seal_ok) = tests.0 e in
            let (d, parsed, named) = read.0 journal_ok in
            (
              ground (arith, whole),
              (d, parsed, named ∙ ap (λ t. some (string t)) same, sealed.0 seal_ok, tt),
            ),
        λ (whole, (d, parsed, named, is_sealed, _)). tests.1 (
          ground (arith, whole),
          read.1 (d, parsed, named ∙ ap (λ t. some (string t)) (sym same)),
          sealed.1 is_sealed,
        ),
      )

  verify_proof_iff :
      (logic : Bytes) (id : String) (secret : Option Bytes) (proof : Bytes)
      → IsBuffer proof
      → id ≡ local_image_id runtime logic
      → (verify_proof runtime hex id secret proof ≡ accepted)
        ↔ (check_receipt runtime logic secret none proof ≡ verified)
  unfolding verify_proof
  verify_proof_iff logic id secret proof buffer same =
      let journal : Bytes = take (read_uint16_be proof 1) (drop 3 proof) in
      let seal : Bytes = drop (3 + read_uint16_be proof 1) proof in
      let shape =
        proof-accepted (length proof) (byte_at proof 0)
          (verify_parts runtime hex id secret journal seal) in
      let parts = verify_parts_iff logic id secret journal seal same in
      let checked = check_receipt_iff runtime logic secret none proof buffer in
      (
        λ e.
            let (long, version, rest) = shape.0 e in
            let (whole, attested) = parts.0 rest in
            checked.1 (journal, seal, parts-IsReceipt proof buffer version whole, attested),
        λ e.
            let (j, s, made, attested) = checked.0 e in
            let (long, version, is_journal, is_seal) = receipt-IsReceipt proof j s made in
            shape.1 (
              long,
              version,
              ap (λ x. verify_parts runtime hex id secret x seal) is_journal
                  ∙ ap (verify_parts runtime hex id secret j) is_seal
                  ∙ (verify_parts_iff logic id secret j s same).1 (made.1, attested),
            ),
      )

  given_fields :
      (logic proof : Bytes) (secret : Option Bytes)
      → str_eq (local_image_id runtime logic) "" ≡ false
      → (verify_zk_receipt runtime (request logic (local_image_id runtime logic) proof secret none)
          ≡ verified)
        ↔ (check_receipt runtime logic secret none proof ≡ verified)
  unfolding verify_zk_receipt check_fields
  given_fields logic proof secret given =
      let id : String = local_image_id runtime logic in
      let image = check_image_iff runtime logic secret none id proof in
      let same =
        ap (λ b. if b then missing_fields else check_image runtime logic id secret none proof)
          given in
      ((λ e. (image.0 (sym same ∙ e)).1), λ e. same ∙ image.1 (refl, e))

  -- The client's verification of a receipt whose image identifier is that of the logic, which is not
  -- empty, accepts it exactly if the image identifier is the expected one and the worker verifies
  -- the receipt with the same session secret and without an expected output. The proof is a
  -- sequence of bytes.
  pub verify-eq-accepted_iff :
      (logic : Bytes) (receipt : ZkReceipt) (expected_image_id : Bytes) (secret : Option Bytes)
      → IsBuffer receipt.proof
      → hex receipt.image_id ≡ local_image_id runtime logic
      → str_eq (local_image_id runtime logic) "" ≡ false
      → (verify runtime hex receipt expected_image_id secret ≡ accepted) ↔ (
          (receipt.image_id ≡ expected_image_id)
          × (verify_zk_receipt runtime
                (request logic (local_image_id runtime logic) receipt.proof secret none)
              ≡ verified))
  unfolding verify
  verify-eq-accepted_iff logic receipt expected secret buffer same given =
      let proof = verify_proof_iff logic (hex receipt.image_id) secret receipt.proof buffer same in
      let worker = given_fields logic receipt.proof secret given in
      let image = bytes_eq_iff receipt.image_id expected in
      elim (Bool-cases (bytes_eq receipt.image_id expected)) [
        | inl equal ↦
            rw equal ((λ e. (image.0 equal, worker.1 (proof.0 e))), λ (_, e). proof.1 (worker.0 e))
        | inr other ↦ rw other ((λ e. absurd (cc e)), λ (e, _). absurd (cc (other, image.1 e)))
      ]
