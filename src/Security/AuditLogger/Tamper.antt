-- ===== src/Security/AuditLogger/Tamper.antt =====
-- sdks/typescript/src/security/audit-logger.ts: two logs with the same last hash.
use neural_mesh_protocol.Prelude.{String, ◌≡◌, refl, sym, ap, ◌∙◌, List, [], ◌∷◌, arith, length}
use neural_mesh_protocol.Security.AuditLogger.{
  FieldValue, PartialEntry, AuditEntry, AuditLogger, AuditStatus, success, blocked_egress, error,
  policy_violation, status_text, canonical_fields, valid, genesis_hash, compute_entry_hash,
  verify_integrity,
}
use neural_mesh_protocol.Security.AuditLogger.Chain.{
  end_hash, IsChain, verify_integrity-eq-valid_iff,
}

same_entry :
    (x y : AuditEntry) → x.partial_entry ≡ y.partial_entry → x.entry_hash ≡ y.entry_hash → x ≡ y
same_entry x y p h = λ i. record { partial_entry = p i; entry_hash = h i }

status_text-injective : (x y : AuditStatus) → status_text x ≡ status_text y → x ≡ y
unfolding status_text
status_text-injective success success h = refl
status_text-injective success blocked_egress h = absurd (cc h)
status_text-injective success error h = absurd (cc h)
status_text-injective success policy_violation h = absurd (cc h)
status_text-injective blocked_egress success h = absurd (cc h)
status_text-injective blocked_egress blocked_egress h = refl
status_text-injective blocked_egress error h = absurd (cc h)
status_text-injective blocked_egress policy_violation h = absurd (cc h)
status_text-injective error success h = absurd (cc h)
status_text-injective error blocked_egress h = absurd (cc h)
status_text-injective error error h = refl
status_text-injective error policy_violation h = absurd (cc h)
status_text-injective policy_violation success h = absurd (cc h)
status_text-injective policy_violation blocked_egress h = absurd (cc h)
status_text-injective policy_violation error h = absurd (cc h)
status_text-injective policy_violation policy_violation h = refl

-- The canonical object has every field of the entry.
canonical_fields-injective : (x y : PartialEntry) → canonical_fields x ≡ canonical_fields y → x ≡ y
unfolding canonical_fields
canonical_fields-injective x y h =
    let id : x.id ≡ y.id = cc h in
    let timestamp : x.timestamp ≡ y.timestamp = cc h in
    let trace_id : x.trace_id ≡ y.trace_id = cc h in
    let agent_did : x.agent_did ≡ y.agent_did = cc h in
    let peer_id : x.peer_id ≡ y.peer_id = cc h in
    let tool_name : x.tool_name ≡ y.tool_name = cc h in
    let dataset_hash : x.dataset_hash ≡ y.dataset_hash = cc h in
    let fuel_consumed : x.fuel_consumed ≡ y.fuel_consumed = cc h in
    let output_hash : x.output_hash ≡ y.output_hash = cc h in
    let zk_receipt_sig : x.zk_receipt_sig ≡ y.zk_receipt_sig = cc h in
    let status : x.status ≡ y.status = status_text-injective x.status y.status (cc h) in
    let prev_entry_hash : x.prev_entry_hash ≡ y.prev_entry_hash = cc h in
    λ i. record {
      id = id i;
      timestamp = timestamp i;
      trace_id = trace_id i;
      agent_did = agent_did i;
      peer_id = peer_id i;
      tool_name = tool_name i;
      dataset_hash = dataset_hash i;
      fuel_consumed = fuel_consumed i;
      output_hash = output_hash i;
      zk_receipt_sig = zk_receipt_sig i;
      status = status i;
      prev_entry_hash = prev_entry_hash i;
    }

module _ (stringify : List (String × FieldValue) → String) (stringify_entry : AuditEntry → String)
    (sha256 : String → String) where
  -- SHA-256 does not take the JSON texts of two entries at one position of the logs for the same,
  -- and these texts differ where the properties that they list differ.
  abbrev pub IsCollisionFree : List AuditEntry → List AuditEntry → Type 0
  IsCollisionFree [] ys = Unit
  IsCollisionFree (x ∷ xs) [] = Unit
  IsCollisionFree (x ∷ xs) (y ∷ ys) =
      let fs : List (String × FieldValue) = canonical_fields x.partial_entry in
      let gs : List (String × FieldValue) = canonical_fields y.partial_entry in
      (sha256 (stringify fs) ≡ sha256 (stringify gs) → stringify fs ≡ stringify gs)
      × (stringify fs ≡ stringify gs → fs ≡ gs)
      × IsCollisionFree xs ys

  same_content :
      (x y : PartialEntry)
      → (sha256 (stringify (canonical_fields x)) ≡ sha256 (stringify (canonical_fields y))
          → stringify (canonical_fields x) ≡ stringify (canonical_fields y))
      → (stringify (canonical_fields x) ≡ stringify (canonical_fields y)
          → canonical_fields x ≡ canonical_fields y)
      → compute_entry_hash stringify stringify_entry sha256 x
        ≡ compute_entry_hash stringify stringify_entry sha256 y
      → x ≡ y
  unfolding compute_entry_hash
  same_content x y free json same = canonical_fields-injective x y (json (free same))

  same_chain :
      (p q : String) (xs ys : List AuditEntry)
      → length xs ≡ length ys
      → IsChain stringify stringify_entry sha256 p xs
      → IsChain stringify stringify_entry sha256 q ys
      → end_hash p xs ≡ end_hash q ys
      → IsCollisionFree xs ys
      → (xs ≡ ys) × (p ≡ q)
  same_chain p q [] [] e c d last free = (refl, last)
  same_chain p q [] (y ∷ ys) e c d last free = absurd (omega arith)
  same_chain p q (x ∷ xs) [] e c d last free = absurd (omega arith)
  same_chain p q (x ∷ xs) (y ∷ ys) e (xl, xh, c) (yl, yh, d) last (distinct, json, free) =
      let (rest, hash) = same_chain x.entry_hash y.entry_hash xs ys (omega arith) c d last free in
      let content =
        same_content x.partial_entry y.partial_entry distinct json (xh ∙ hash ∙ sym yh) in
      (
        (λ i. same_entry x y content hash i ∷ rest i),
        sym xl ∙ ap (λ (c : PartialEntry). c.prev_entry_hash) content ∙ yl,
      )

  -- Two logs that are both found valid and have as many entries and the same last hash are equal in
  -- every field of every entry, as long as, for the entries at each position of the two, SHA-256
  -- has no collision between their canonical JSON texts, and these texts are equal only for equal
  -- properties.
  pub tamper_evident :
      (l l' : AuditLogger)
      → verify_integrity stringify stringify_entry sha256 l ≡ valid (length l.entries)
      → verify_integrity stringify stringify_entry sha256 l' ≡ valid (length l'.entries)
      → length l.entries ≡ length l'.entries
      → end_hash genesis_hash l.entries ≡ end_hash genesis_hash l'.entries
      → IsCollisionFree l.entries l'.entries
      → l.entries ≡ l'.entries
  tamper_evident l l' v v' e last free =
      (same_chain genesis_hash genesis_hash l.entries l'.entries e
        ((verify_integrity-eq-valid_iff stringify stringify_entry sha256 l).0 v)
        ((verify_integrity-eq-valid_iff stringify stringify_entry sha256 l').0 v') last free).0
