-- ===== src/Security/AuditLogger/Reload.antt =====
-- sdks/typescript/src/security/audit-logger.ts: a log and its file.
use neural_mesh_protocol.Prelude.{
  String, ◌≡◌, refl, sym, ap, ◌∙◌, Option, some, List, [], ◌∷◌, ◌++◌, map, append_assoc, append-nil,
  All,
}
use neural_mesh_protocol.Security.AuditLogger.{
  FieldValue, AuditEntry, AuditRecordParams, Fresh, AuditLogger, genesis_hash, record_execution,
  load_entry, load_lines, create, lines_of,
}
use neural_mesh_protocol.Security.AuditLogger.Chain.{end_hash, end_hash-snoc, record_all}

map-snoc :
    (f : AuditEntry → String) (xs : List AuditEntry) (x : AuditEntry)
    → map f (xs ++ x ∷ []) ≡ map f xs ++ f x ∷ []
map-snoc f [] x = refl
map-snoc f (y ∷ xs) x = ap (λ l. f y ∷ l) (map-snoc f xs x)

module _ (stringify : List (String × FieldValue) → String) (stringify_entry : AuditEntry → String)
    (sha256 : String → String) (parse : String → Option AuditEntry) where
  -- The file holds the entries, and the last hash is that of the last entry.
  abbrev pub IsFiled : AuditLogger → Type 0
  IsFiled l =
      (l.file ≡ some (map stringify_entry l.entries))
      × (l.last_entry_hash ≡ end_hash genesis_hash l.entries)

  record_execution-IsFiled :
      (fresh : Fresh) (params : AuditRecordParams) (l : AuditLogger)
      → IsFiled l
      → IsFiled (record_execution stringify stringify_entry sha256 fresh params l).1
  unfolding record_execution
  record_execution-IsFiled fresh params l (file, last) = (
    rw (file, map-snoc stringify_entry l.entries) refl,
    sym (end_hash-snoc genesis_hash l.entries _),
  )

  record_all-IsFiled :
      (executions : List (Fresh × AuditRecordParams)) (l : AuditLogger)
      → IsFiled l
      → IsFiled (record_all stringify stringify_entry sha256 executions l)
  unfolding record_all
  record_all-IsFiled [] l h = h
  record_all-IsFiled ((fresh, params) ∷ executions) l h =
      record_all-IsFiled executions
        (record_execution stringify stringify_entry sha256 fresh params l).1
        (record_execution-IsFiled fresh params l h)

  -- The loader adds the entries of the lines to those that it has.
  load_lines-map :
      (entries : List AuditEntry) (l : AuditLogger)
      → All (λ e. parse (stringify_entry e) ≡ some e) entries
      → load_lines parse (map stringify_entry entries) (some l)
        ≡ some (record {
          entries = l.entries ++ entries;
          last_entry_hash = end_hash l.last_entry_hash entries;
          file = l.file;
        })
  unfolding load_lines
  load_lines-map [] l reads = rw (append-nil l.entries) refl
  load_lines-map (e ∷ entries) l (reads, rest) =
      let l' : AuditLogger = record l {
        entries = l.entries ++ e ∷ [];
        last_entry_hash = e.entry_hash;
      } in
      ap (λ o. load_lines parse (map stringify_entry entries) (load_entry parse o (some l))) reads
      ∙ load_lines-map entries l' rest
      ∙ rw (append_assoc l.entries (e ∷ []) entries) refl

  -- A log whose file holds its entries is restored as it is from its file, after any number of
  -- executions, if the line of each entry is read back as the entry.
  pub create-record_all :
      (executions : List (Fresh × AuditRecordParams)) (l : AuditLogger)
      → IsFiled l
      → All
          (λ e. parse (stringify_entry e) ≡ some e)
          (record_all stringify stringify_entry sha256 executions l).entries
      → create parse (record_all stringify stringify_entry sha256 executions l).file
        ≡ some (record_all stringify stringify_entry sha256 executions l)
  unfolding create
  create-record_all executions l filed reads =
      let l' = record_all stringify stringify_entry sha256 executions l in
      let (file, last) = record_all-IsFiled executions l filed in
      let loaded : AuditLogger = record {
        entries = [];
        last_entry_hash = genesis_hash;
        file = l'.file;
      } in
      ap (λ lines. load_lines parse (lines_of lines) (some loaded)) file
      ∙ load_lines-map l'.entries loaded reads
      ∙ rw (sym last) refl
