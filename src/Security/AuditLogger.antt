-- ===== src/Security/AuditLogger.antt =====
-- sdks/typescript/src/security/audit-logger.ts: the audit log, a chain of hashes. The clock, the random identifiers and
-- the hash are arguments; the file of the log is the list of its lines.
pub mod Chain
pub mod Tamper
pub mod Reload
mod Tests
use Prim.Native.String
use neural_mesh_protocol.Prelude.{
  ℕ, zero, suc, ◌+◌, String, Bool, not, Option, none, some, List, [], ◌∷◌, ◌++◌, length, replicate,
  str_eq, if◌then◌else◌, decimal,
}

pub data AuditStatus : Type 0 where
  success blocked_egress error policy_violation : AuditStatus

-- `Omit<AuditEntry, "entryHash">`
pub record PartialEntry : Type 0 where
  pub id : String
  pub timestamp : String
  pub trace_id : String
  pub agent_did : String
  pub peer_id : String
  pub tool_name : String
  pub dataset_hash : String
  pub fuel_consumed : ℕ
  pub output_hash : String
  pub zk_receipt_sig : String
  pub status : AuditStatus
  pub prev_entry_hash : String

pub record AuditEntry : Type 0 where
  pub partial_entry : PartialEntry
  pub entry_hash : String

pub record AuditRecordParams : Type 0 where
  pub timestamp : Option String
  pub trace_id : Option String
  pub agent_did : String
  pub peer_id : String
  pub tool_name : String
  pub dataset_hash : Option String
  pub fuel_consumed : ℕ
  pub output_hash : Option String
  pub zk_receipt_sig : Option String
  pub status : AuditStatus

-- what `crypto.randomUUID`, `new Date().toISOString()` and `crypto.randomBytes` give
pub record Fresh : Type 0 where
  pub uuid : String
  pub now : String
  pub trace : String

zeros : ℕ → String
zeros zero = ""
zeros (suc n) = String.◌++◌ "0" (zeros n)

-- `GENESIS_HASH`
unfoldable pub genesis_hash : String
unfolding zeros
genesis_hash = zeros 64

-- `value || fallback`
abbrev or_fallback : Option String → String → String
or_fallback none fallback = fallback
or_fallback (some value) fallback = if str_eq value "" then fallback else value

status_text : AuditStatus → String
status_text success = "SUCCESS"
status_text blocked_egress = "BLOCKED_EGRESS"
status_text error = "ERROR"
status_text policy_violation = "POLICY_VIOLATION"

-- a value of the canonical object
pub data FieldValue : Type 0 where
  text : String → FieldValue
  number : ℕ → FieldValue

-- `canonicalize`, up to `JSON.stringify`: the properties in the order of their keys
unfoldable pub canonical_fields : PartialEntry → List (String × FieldValue)
unfolding status_text
canonical_fields e =
    ("agentDid", text e.agent_did)
    ∷ ("datasetHash", text e.dataset_hash)
    ∷ ("fuelConsumed", number e.fuel_consumed)
    ∷ ("id", text e.id)
    ∷ ("outputHash", text e.output_hash)
    ∷ ("peerId", text e.peer_id)
    ∷ ("prevEntryHash", text e.prev_entry_hash)
    ∷ ("status", text (status_text e.status))
    ∷ ("timestamp", text e.timestamp)
    ∷ ("toolName", text e.tool_name)
    ∷ ("traceId", text e.trace_id)
    ∷ ("zkReceiptSig", text e.zk_receipt_sig)
    ∷ []

pub record AuditLogger : Type 0 where
  pub entries : List AuditEntry
  pub last_entry_hash : String
  pub file : Option (List String)

-- the result of `verifyIntegrity`
pub data Integrity : Type 0 where
  valid : (total_entries : ℕ) → Integrity
  broken : (total_entries broken_index : ℕ) (reason : String) → Integrity

append_line : String → Option (List String) → Option (List String)
append_line line none = none
append_line line (some lines) = some (lines ++ line ∷ [])

prev_reason : ℕ → String → String → String
prev_reason i expected got = String.◌++◌ "Broken hash chain at index " (
    String.◌++◌ (decimal i)
      (String.◌++◌ ": expected prevHash " (String.◌++◌ expected (String.◌++◌ ", got " got))))

hash_reason : ℕ → String → String → String
hash_reason i recalculated stored = String.◌++◌ "Tampered entry at index " (
    String.◌++◌ (decimal i) (
      String.◌++◌ ": hash mismatch (expected "
        (String.◌++◌ recalculated (String.◌++◌ ", stored " (String.◌++◌ stored ")")))))

-- `JSON.stringify` of the canonical object and of an entry, and SHA-256 in hexadecimal.
module _ (stringify : List (String × FieldValue) → String) (stringify_entry : AuditEntry → String)
    (sha256 : String → String) where
  -- `computeEntryHash`
  unfoldable pub compute_entry_hash : PartialEntry → String
  compute_entry_hash e = sha256 (stringify (canonical_fields e))

  partial_of : Fresh → AuditRecordParams → String → PartialEntry
  partial_of fresh params prev = record {
    id = fresh.uuid;
    timestamp = or_fallback params.timestamp fresh.now;
    trace_id = or_fallback params.trace_id fresh.trace;
    agent_did = params.agent_did;
    peer_id = params.peer_id;
    tool_name = params.tool_name;
    dataset_hash = or_fallback params.dataset_hash (sha256 "");
    fuel_consumed = params.fuel_consumed;
    output_hash = or_fallback params.output_hash (sha256 "");
    zk_receipt_sig = or_fallback params.zk_receipt_sig "";
    status = params.status;
    prev_entry_hash = prev;
  }

  -- the entry at the end of the log and of its file
  push_entry : PartialEntry → AuditLogger → AuditEntry × AuditLogger
  unfolding append_line
  push_entry e l =
      let entry : AuditEntry = record { partial_entry = e; entry_hash = compute_entry_hash e } in
      (
        entry,
        record {
          entries = l.entries ++ entry ∷ [];
          last_entry_hash = compute_entry_hash e;
          file = append_line (stringify_entry entry) l.file;
        },
      )

  -- `recordExecution`
  unfoldable pub record_execution :
      Fresh → AuditRecordParams → AuditLogger → AuditEntry × AuditLogger
  unfolding partial_of push_entry
  record_execution fresh params l = push_entry (partial_of fresh params l.last_entry_hash) l

  -- the loop of `verifyIntegrity`
  unfoldable pub verify_from :
      (total i : ℕ) (expected_prev_hash : String) → List AuditEntry → Integrity
  unfolding prev_reason hash_reason
  verify_from total i expected [] = valid total
  verify_from total i expected (entry ∷ entries) =
      let rest = verify_from total (i + 1) entry.entry_hash entries in
      let recalculated = compute_entry_hash entry.partial_entry in
      if not (str_eq entry.partial_entry.prev_entry_hash expected)
      then broken total i (prev_reason i expected entry.partial_entry.prev_entry_hash)
      else if not (str_eq recalculated entry.entry_hash)
      then broken total i (hash_reason i recalculated entry.entry_hash)
      else rest

  -- `verifyIntegrity`
  unfoldable pub verify_integrity : AuditLogger → Integrity
  verify_integrity l = verify_from (length l.entries) 0 genesis_hash l.entries

-- `loadFromFile`: `parse` is `JSON.parse` of a line that is not blank, which throws for some.
module _ (parse : String → Option AuditEntry) where
  unfoldable pub load_entry : Option AuditEntry → Option AuditLogger → Option AuditLogger
  load_entry (some entry) (some l) =
      some (record l { entries = l.entries ++ entry ∷ []; last_entry_hash = entry.entry_hash })
  load_entry _ _ = none

  unfoldable pub load_lines : List String → Option AuditLogger → Option AuditLogger
  unfolding load_entry
  load_lines [] l = l
  load_lines (line ∷ lines) l = load_lines lines (load_entry (parse line) l)

abbrev pub lines_of : Option (List String) → List String
lines_of none = []
lines_of (some lines) = lines

-- the constructor, with the lines of its file that are not blank, if it has one
unfoldable pub create :
    (parse : String → Option AuditEntry) → Option (List String) → Option AuditLogger
create parse file =
    load_lines parse (lines_of file)
      (some (record { entries = []; last_entry_hash = genesis_hash; file = file }))
