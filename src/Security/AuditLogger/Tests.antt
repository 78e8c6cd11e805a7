-- ===== src/Security/AuditLogger/Tests.antt =====
-- sdks/typescript/src/security/audit-logger.ts on a log of two executions.
use Prim.Native.String
use neural_mesh_protocol.Prelude.{
  String, ◌≡◌, ◌↔◌, refl, Option, none, some, List, [], ◌∷◌, str_eq, if◌then◌else◌, decimal, take,
}
use neural_mesh_protocol.Security.AuditLogger.{
  FieldValue, text, number, success, AuditEntry, AuditRecordParams, Fresh, AuditLogger, valid,
  genesis_hash, canonical_fields, compute_entry_hash, record_execution, verify_from,
  verify_integrity, load_entry, load_lines, create,
}
use neural_mesh_protocol.Security.AuditLogger.Chain.{
  IsChain, record_all, verify_integrity-eq-valid_iff, record_all-verify_integrity,
}
use neural_mesh_protocol.Security.AuditLogger.Tamper.{tamper_evident}
use neural_mesh_protocol.Security.AuditLogger.Reload.{create-record_all}

audit : Unit {0}
unfolding genesis_hash canonical_fields compute_entry_hash record_execution verify_from
    verify_integrity load_entry load_lines create record_all decimal
audit = tt

-- Stand-ins for JSON and SHA-256: a text of all values, and the text itself.
abbrev stringify : List (String × FieldValue) → String
stringify [] = ""
stringify ((k, text t) ∷ fields) = String.◌++◌ t (String.◌++◌ ";" (stringify fields))
stringify ((k, number n) ∷ fields) = String.◌++◌ (decimal n) (String.◌++◌ ";" (stringify fields))

abbrev stringify_entry : AuditEntry → String
stringify_entry e = e.partial_entry.id

abbrev sha256 : String → String
sha256 t = t

abbrev params : AuditRecordParams
params = record {
  timestamp = none;
  trace_id = some "";
  agent_did = "did:a";
  peer_id = "peer";
  tool_name = "stats";
  dataset_hash = none;
  fuel_consumed = 12;
  output_hash = some "out";
  zk_receipt_sig = none;
  status = success;
}

abbrev first : Fresh
first = record { uuid = "1"; now = "t1"; trace = "x1" }

abbrev second : Fresh
second = record { uuid = "2"; now = "t2"; trace = "x2" }

abbrev fresh_log : AuditLogger
fresh_log = record { entries = []; last_entry_hash = genesis_hash; file = some [] }

abbrev executions : List (Fresh × AuditRecordParams)
executions = (first, params) ∷ (second, params) ∷ []

abbrev log : AuditLogger
log = record_all stringify stringify_entry sha256 executions fresh_log

fallbacks :
    (record_execution stringify stringify_entry sha256 first params fresh_log).0.entry_hash
    ≡ String.◌++◌ "did:a;;12;1;out;peer;" (String.◌++◌ genesis_hash ";SUCCESS;t1;stats;x1;;")
unfolding audit
fallbacks = refl

-- That the last entries are missing is not found out.
last_entry_removed :
    verify_integrity stringify stringify_entry sha256 (record log { entries = take 1 log.entries })
    ≡ valid 1
unfolding audit
last_entry_removed = refl

verify_integrity-eq-valid_iff_example :
    (verify_integrity stringify stringify_entry sha256 log ≡ valid 2)
    ↔ IsChain stringify stringify_entry sha256 genesis_hash log.entries
unfolding audit
verify_integrity-eq-valid_iff_example =
    verify_integrity-eq-valid_iff stringify stringify_entry sha256 log

record_all-verify_integrity_example :
    verify_integrity stringify stringify_entry sha256 log ≡ valid 2
unfolding audit
record_all-verify_integrity_example =
    record_all-verify_integrity stringify stringify_entry sha256 executions fresh_log (tt, refl)

tamper_evident_example : log.entries ≡ log.entries
unfolding audit
tamper_evident_example =
    tamper_evident stringify stringify_entry sha256 log log refl refl refl refl
      ((λ _. refl), (λ _. refl), ((λ _. refl), (λ _. refl), tt))

abbrev parse : String → Option AuditEntry
parse line =
    if str_eq line "1"
    then some (record_execution stringify stringify_entry sha256 first params fresh_log).0
    else some
        (record_execution stringify stringify_entry sha256 second params
          (record_execution stringify stringify_entry sha256 first params fresh_log).1).0

create-record_all_example : create parse (some ("1" ∷ "2" ∷ [])) ≡ some log
unfolding audit
create-record_all_example =
    create-record_all stringify stringify_entry sha256 parse executions fresh_log (refl, refl)
      (refl, (refl, tt))
