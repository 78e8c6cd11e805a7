-- ===== src/Workers/ZkVerifier/Verified.antt =====
-- sdks/typescript/src/workers/zk-verifier.ts: which receipts are verified.
use neural_mesh_protocol.Prelude.{
  ◌+◌, String, false, not, Option, none, some, ltb, length, take, drop, ◌==◌, str_eq, str_eq_iff,
  if◌then◌else◌, ◌≡◌, ◌↔◌, refl, sym, ap, ◌∙◌, inl, inr, arith, Bool-cases,
}
use neural_mesh_protocol.Prelude.Bytes.{Bytes, byte_at, read_uint16_be}
use neural_mesh_protocol.Prelude.Json.{Json, string, member}
use neural_mesh_protocol.Workers.Runtime.{Runtime}
use neural_mesh_protocol.Workers.ZkVerifier.{
  ZkVerificationPayload, Verdict, verified, missing_fields, receipt_too_short,
  unknown_receipt_version, check_journal_image, local_image_id, check_seal, check_output,
  check_journal, check_parts, check_receipt, check_image, check_fields,
}
use neural_mesh_protocol.Workers.ZkVerifier.Checks.{
  IsReceipt, IsBuffer, IsSealed, HasOutput, or_verdict_iff, check_journal_image_iff,
  parts-IsReceipt, receipt-IsReceipt, check_seal_iff, check_output_iff,
}

-- The journal is JSON with the image identifier of the logic, is sealed, and has the output.
abbrev pub Attests :
    Runtime
    → (logic : Bytes) (session_secret : Option Bytes) (expected_output : Option Json)
      (journal seal : Bytes)
    → Type 0
Attests runtime logic session_secret expected_output journal seal =
    (journal_data : Json) × (runtime.parse (runtime.utf8_text journal) ≡ some journal_data)
    × (member "image_id" journal_data ≡ some (string (local_image_id runtime logic)))
    × IsSealed runtime session_secret journal seal
    × HasOutput runtime logic expected_output journal_data

-- The logic, the receipt and its parts, and what is asked of them.
abbrev pub IsVerified : Runtime → ZkVerificationPayload → Type 0
IsVerified runtime payload =
    (logic : Bytes) × (receipt : Bytes) × (journal : Bytes) × (seal : Bytes)
    × (payload.logic_payload ≡ some logic)
    × (payload.zk_receipt ≡ some receipt)
    × (payload.remote_image_id_hex ≡ some (local_image_id runtime logic))
    × (str_eq (local_image_id runtime logic) "" ≡ false)
    × IsReceipt receipt journal seal
    × Attests runtime logic payload.session_secret payload.expected_output journal seal

abbrev pub IsReceiptBuffer : Option Bytes → Type 0
IsReceiptBuffer none = Unit
IsReceiptBuffer (some receipt) = IsBuffer receipt

receipt-cases :
    (receipt : Bytes) (v : Verdict)
    → (if ltb (length receipt) 35
        then receipt_too_short
        else if not (byte_at receipt 0 == 1)
        then unknown_receipt_version (byte_at receipt 0)
        else v)
      ≡ verified
    → (byte_at receipt 0 ≡ 1) × (v ≡ verified)
receipt-cases receipt v e = elim (Bool-cases (ltb (length receipt) 35)) [
  | inl short ↦ absurd (ground (arith, e, short))
  | inr long ↦ elim (Bool-cases (byte_at receipt 0 == 1)) [
    | inl one ↦ (ground (arith, one), ground (arith, e, long, one))
    | inr other ↦ absurd (ground (arith, e, long, other))
  ]
]

module _ (runtime : Runtime) (logic : Bytes) (secret : Option Bytes) (expected : Option Json) where
  journal_data_iff :
      (journal seal : Bytes) (d : Json)
      → (check_journal runtime logic secret expected journal seal (some d) ≡ verified) ↔ (
          (member "image_id" d ≡ some (string (local_image_id runtime logic)))
          × IsSealed runtime secret journal seal
          × HasOutput runtime logic expected d)
  unfolding check_journal
  journal_data_iff journal seal d =
      let image = check_journal_image_iff (local_image_id runtime logic) (member "image_id" d) in
      let sealed = check_seal_iff runtime secret journal seal in
      let output = check_output_iff runtime logic expected d in
      let last = or_verdict_iff (check_output runtime logic expected d) verified output.0 in
      let second = or_verdict_iff (check_seal runtime secret journal seal) _ sealed.0 in
      let first = or_verdict_iff (check_journal_image _ (member "image_id" d)) _ image.0 in
      (
        λ e.
            let (i, rest) = first.0 e in
            let (s, out) = second.0 rest in (image.1.0 i, sealed.1.0 s, output.1.0 (last.0 out).0),
        λ (i, s, out).
            first.1 (image.1.1 i, second.1 (sealed.1.1 s, last.1 (output.1.1 out, refl))),
      )

  check_journal_iff :
      (journal seal : Bytes) (o : Option Json)
      → (check_journal runtime logic secret expected journal seal o ≡ verified) ↔ (
          (journal_data : Json) × (o ≡ some journal_data)
          × (member "image_id" journal_data ≡ some (string (local_image_id runtime logic)))
          × IsSealed runtime secret journal seal
          × HasOutput runtime logic expected journal_data)
  unfolding check_journal
  check_journal_iff journal seal none = ((λ e. absurd (cc e)), λ (d, e, i, s, out). absurd (cc e))
  check_journal_iff journal seal (some d) = (
    λ e. let (i, s, out) = (journal_data_iff journal seal d).0 e in (d, refl, i, s, out),
    λ (d', e, i, s, out).
        ap (check_journal runtime logic secret expected journal seal) e
        ∙ (journal_data_iff journal seal d').1 (i, s, out),
  )

  check_parts_iff :
      (journal seal : Bytes)
      → (check_parts runtime logic secret expected journal seal ≡ verified)
        ↔ ((length seal ≡ 32) × Attests runtime logic secret expected journal seal)
  unfolding check_parts
  check_parts_iff journal seal =
      let rest = check_journal_iff journal seal (runtime.parse (runtime.utf8_text journal)) in
      elim (Bool-cases (length seal == 32)) [
        | inl right ↦ rw right ((λ e. (ground (arith, right), rest.0 e)), λ (l, a). rest.1 a)
        | inr wrong ↦ rw wrong ((λ e. absurd (cc e)), λ (l, a). absurd (ground (arith, l, wrong)))
      ]

  receipt_verified :
      (receipt journal seal : Bytes)
      → IsReceipt receipt journal seal
      → Attests runtime logic secret expected journal seal
      → check_receipt runtime logic secret expected receipt ≡ verified
  unfolding check_receipt
  receipt_verified receipt journal seal (made, sealed, short) attested =
      let (long, version, is_journal, is_seal) =
        receipt-IsReceipt receipt journal seal (made, sealed, short) in
      ground (
        arith,
        long,
        version,
        ap
            (λ j.
              check_parts runtime logic secret expected j
                (drop (3 + read_uint16_be receipt 1) receipt))
            is_journal,
        ap (check_parts runtime logic secret expected journal) is_seal,
        (check_parts_iff journal seal).1 (sealed, attested),
      )

  pub check_receipt_iff :
      (receipt : Bytes)
      → IsBuffer receipt
      → (check_receipt runtime logic secret expected receipt ≡ verified) ↔ (
          (journal : Bytes) × (seal : Bytes) × IsReceipt receipt journal seal
          × Attests runtime logic secret expected journal seal)
  unfolding check_receipt
  check_receipt_iff receipt buffer =
      let parts =
        check_parts_iff (take (read_uint16_be receipt 1) (drop 3 receipt))
          (drop (3 + read_uint16_be receipt 1) receipt) in
      (
        λ e.
            let (version, checked) = receipt-cases receipt _ e in
            let (whole, attested) = parts.0 checked in
            (_, _, parts-IsReceipt receipt buffer version whole, attested),
        λ (journal, seal, made, attested). receipt_verified receipt journal seal made attested,
      )

  pub check_image_iff :
      (remote : String) (receipt : Bytes)
      → (check_image runtime logic remote secret expected receipt ≡ verified) ↔ (
          (remote ≡ local_image_id runtime logic)
          × (check_receipt runtime logic secret expected receipt ≡ verified))
  unfolding check_image
  check_image_iff remote receipt =
      elim (Bool-cases (str_eq (local_image_id runtime logic) remote)) [
        | inl same ↦ rw same (
          (λ e. (sym ((str_eq_iff (local_image_id runtime logic) remote).0 same), e)),
          λ (_, e). e,
        )
        | inr other ↦ rw other (
          (λ e. absurd (cc e)),
          λ (e, _).
              absurd (cc (other, (str_eq_iff (local_image_id runtime logic) remote).1 (sym e))),
        )
      ]

-- The fields that are given, and what is asked of them.
abbrev pub Given :
    Runtime
    → (secret : Option Bytes) (expected : Option Json)
    → (logic : Option Bytes) (remote : Option String) (receipt : Option Bytes) → Type 0
Given runtime secret expected logic remote receipt =
    (l : Bytes) × (r : Bytes) × (journal : Bytes) × (seal : Bytes) × (logic ≡ some l)
    × (receipt ≡ some r)
    × (remote ≡ some (local_image_id runtime l))
    × (str_eq (local_image_id runtime l) "" ≡ false)
    × IsReceipt r journal seal
    × Attests runtime l secret expected journal seal

pub checked_fields :
    (runtime : Runtime) (secret : Option Bytes) (expected : Option Json) (logic : Option Bytes)
    (remote : Option String) (receipt : Option Bytes)
    → Given runtime secret expected logic remote receipt
    → check_fields runtime logic remote receipt secret expected ≡ verified
unfolding check_fields
checked_fields runtime secret expected logic remote receipt
      (l, r, j, s, el, er, same, given, made, attested) =
    let local : String = local_image_id runtime l in
    let checked = receipt_verified runtime l secret expected r j s made attested in
    let image = (check_image_iff runtime l secret expected local r).1 (refl, checked) in
    ap (λ x. check_fields runtime x remote receipt secret expected) el
    ∙ ap (λ x. check_fields runtime (some l) x receipt secret expected) same
    ∙ ap (λ x. check_fields runtime (some l) (some local) x secret expected) er
    ∙ ap (λ b. if b then missing_fields else check_image runtime l local secret expected r) given
    ∙ image
