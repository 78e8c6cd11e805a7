-- ===== src/Security/AuditLogger/Chain.antt =====
-- sdks/typescript/src/security/audit-logger.ts: what `verifyIntegrity` says of a log.
use neural_mesh_protocol.Prelude.{
  ℕ, ◌+◌, String, ◌≡◌, ◌↔◌, refl, sym, ap, ◌∙◌, List, [], ◌∷◌, ◌++◌, arith, length, str_eq_iff,
  length-append,
}
use neural_mesh_protocol.Security.AuditLogger.{
  FieldValue, AuditEntry, AuditRecordParams, Fresh, AuditLogger, valid, genesis_hash,
  compute_entry_hash, record_execution, verify_from, verify_integrity,
}

-- The hash of the last entry, or the one before the first.
abbrev pub end_hash : String → List AuditEntry → String
end_hash prev [] = prev
end_hash prev (e ∷ entries) = end_hash e.entry_hash entries

pub end_hash-snoc :
    (prev : String) (entries : List AuditEntry) (e : AuditEntry)
    → end_hash prev (entries ++ e ∷ []) ≡ e.entry_hash
end_hash-snoc prev [] e = refl
end_hash-snoc prev (x ∷ entries) e = end_hash-snoc x.entry_hash entries e

module _ (stringify : List (String × FieldValue) → String) (stringify_entry : AuditEntry → String)
    (sha256 : String → String) where
  -- Each entry names the hash of the one before it, and its own hash is that of its content.
  abbrev pub IsChain : String → List AuditEntry → Type 0
  IsChain prev [] = Unit
  IsChain prev (e ∷ entries) =
      (e.partial_entry.prev_entry_hash ≡ prev)
      × (compute_entry_hash stringify stringify_entry sha256 e.partial_entry ≡ e.entry_hash)
      × IsChain e.entry_hash entries

  verify_from_sound :
      (total i : ℕ) (prev : String) (entries : List AuditEntry)
      → verify_from stringify stringify_entry sha256 total i prev entries ≡ valid total
      → IsChain prev entries
  unfolding verify_from
  verify_from_sound total i prev [] e = tt
  verify_from_sound total i prev (x ∷ entries) e =
      let hash = compute_entry_hash stringify stringify_entry sha256 x.partial_entry in
      ground (
        arith,
        str_eq_iff x.partial_entry.prev_entry_hash prev,
        str_eq_iff hash x.entry_hash,
        verify_from_sound total (i + 1) x.entry_hash entries,
      )

  verify_from_complete :
      (total i : ℕ) (prev : String) (entries : List AuditEntry)
      → IsChain prev entries
      → verify_from stringify stringify_entry sha256 total i prev entries ≡ valid total
  unfolding verify_from
  verify_from_complete total i prev [] h = refl
  verify_from_complete total i prev (x ∷ entries) (linked, hashed, h) =
      let hash = compute_entry_hash stringify stringify_entry sha256 x.partial_entry in
      ground (
        arith,
        str_eq_iff x.partial_entry.prev_entry_hash prev,
        str_eq_iff hash x.entry_hash,
        verify_from_complete total (i + 1) x.entry_hash entries h,
      )

  -- `verifyIntegrity` finds a log valid exactly if its entries are a chain from the genesis hash.
  pub verify_integrity-eq-valid_iff :
      (l : AuditLogger)
      → (verify_integrity stringify stringify_entry sha256 l ≡ valid (length l.entries))
        ↔ IsChain genesis_hash l.entries
  unfolding verify_integrity
  verify_integrity-eq-valid_iff l = (
    verify_from_sound (length l.entries) 0 genesis_hash l.entries,
    verify_from_complete (length l.entries) 0 genesis_hash l.entries,
  )

  IsChain-snoc :
      (prev : String) (entries : List AuditEntry) (e : AuditEntry)
      → IsChain prev entries
      → e.partial_entry.prev_entry_hash ≡ end_hash prev entries
      → compute_entry_hash stringify stringify_entry sha256 e.partial_entry ≡ e.entry_hash
      → IsChain prev (entries ++ e ∷ [])
  IsChain-snoc prev [] e h linked hashed = (linked, hashed, tt)
  IsChain-snoc prev (x ∷ entries) e (l, c, h) linked hashed =
      (l, c, IsChain-snoc x.entry_hash entries e h linked hashed)

  -- The log is a chain, and the next entry will name its last hash.
  abbrev pub IsSound : AuditLogger → Type 0
  IsSound l = IsChain genesis_hash l.entries × (l.last_entry_hash ≡ end_hash genesis_hash l.entries)

  record_execution-IsSound :
      (fresh : Fresh) (params : AuditRecordParams) (l : AuditLogger)
      → IsSound l
      → IsSound (record_execution stringify stringify_entry sha256 fresh params l).1
  unfolding record_execution
  record_execution-IsSound fresh params l (chain, last) = (
    IsChain-snoc genesis_hash l.entries _ chain last refl,
    sym (end_hash-snoc genesis_hash l.entries _),
  )

  -- Several executions, one after the other.
  unfoldable pub record_all : List (Fresh × AuditRecordParams) → AuditLogger → AuditLogger
  record_all [] l = l
  record_all ((fresh, params) ∷ executions) l =
      record_all executions (record_execution stringify stringify_entry sha256 fresh params l).1

  record_all-IsSound :
      (executions : List (Fresh × AuditRecordParams)) (l : AuditLogger)
      → IsSound l
      → IsSound (record_all executions l)
  unfolding record_all
  record_all-IsSound [] l h = h
  record_all-IsSound ((fresh, params) ∷ executions) l h =
      record_all-IsSound executions
        (record_execution stringify stringify_entry sha256 fresh params l).1
        (record_execution-IsSound fresh params l h)

  length-record_all :
      (executions : List (Fresh × AuditRecordParams)) (l : AuditLogger)
      → length (record_all executions l).entries ≡ length l.entries + length executions
  unfolding record_all record_execution
  length-record_all [] l = omega arith
  length-record_all ((fresh, params) ∷ executions) l = omega (
    arith,
    length-record_all executions
        (record_execution stringify stringify_entry sha256 fresh params l).1,
    length-append l.entries
        ((record_execution stringify stringify_entry sha256 fresh params l).0 ∷ []),
  )

  -- A log that is a chain and keeps its last hash is found valid after any number of further
  -- executions, and it has one entry more for each of them.
  pub record_all-verify_integrity :
      (executions : List (Fresh × AuditRecordParams)) (l : AuditLogger)
      → IsSound l
      → verify_integrity stringify stringify_entry sha256 (record_all executions l)
        ≡ valid (length l.entries + length executions)
  record_all-verify_integrity executions l sound =
      let (chain, last) = record_all-IsSound executions l sound in
      (verify_integrity-eq-valid_iff (record_all executions l)).1 chain
      ∙ ap valid (length-record_all executions l)
