-- ===== src/Security/Taint/SmallData.antt =====
-- sdks/typescript/src/security/taint-analyzer.ts: which programs the gates for small datasets let through.
use neural_mesh_protocol.Prelude.{
  ℕ, ◌+◌, ◌≤◌, String, ◌≡◌, refl, sym, ap, ◌∙◌, ◌↔◌, append_assoc, append-nil, Bool, true, false,
  ◌&&◌, ◌||◌, Option, none, some, List, [], ◌∷◌, ◌++◌, any, All, arith, Bool-cases, ◌⊎◌, inl, inr,
  if◌then◌else◌, str_eq, str_eq_iff,
}
use neural_mesh_protocol.Prelude.Assoc.{Assoc, lookup}
use neural_mesh_protocol.Security.Taint.Ast.{
  Node, identifier, member, call, function, spread, FunctionKind, arrow, expression, Nodes, elems,
  identifier_name, has_name, name_is, property_name, is_env_records_chain,
}
use neural_mesh_protocol.Security.Taint.Eval.{reduce_methods, is_callback}
use neural_mesh_protocol.Security.Taint.Passes.{TaintViolation, for_each}
use neural_mesh_protocol.Security.Taint.Repeats.{times, counted-once}
use neural_mesh_protocol.Security.Taint.Gates.{
  is_spread_of_map, push_field, record_parameter, visit_field, count_field, first_repeated,
  correlation_violation, fields_of, visit_reduction, detect_correlated_aggregations, visit_min_max,
  detect_min_max_extraction,
}

-- The field that a node reads of the record in a variable, unless it is `length`.
abbrev named_field : Option String → List String
named_field none = []
named_field (some f) = if str_eq f "" || str_eq f "length" then [] else f ∷ []

abbrev pub field_read : (param : String) → Node → List String
field_read param (member (identifier x) p c) =
    if str_eq x param then named_field (property_name p c) else []
field_read param _ = []

abbrev pub fields_read : (param : String) → List Node → List String
fields_read param [] = []
fields_read param (n ∷ ns) = field_read param n ++ fields_read param ns

-- The parameter of a reduction's callback that takes the records: the second, or the only one.
abbrev pub taking_records : Nodes → Option String
taking_records Nodes.nil = none
taking_records (Nodes.cons p Nodes.nil) = identifier_name p
taking_records (Nodes.cons p (Nodes.cons q _)) = identifier_name q

abbrev pub is_expression_kind : FunctionKind → Bool
is_expression_kind arrow = true
is_expression_kind expression = true
is_expression_kind _ = false

module _ (visits : Node → List Node) where
  abbrev pub reads_by : Option String → Node → List String
  reads_by none body = []
  reads_by (some param) body = fields_read param (visits body)

  -- What a node reads of the records, if it is a reduction of them with a function expression.
  abbrev pub reduction_reads : Node → List String
  reduction_reads (call (member o p c) (Nodes.cons (function kind name ps body) _)) =
      if (name_is (property_name p c) "reduce" || name_is (property_name p c) "reduceRight")
        && (is_env_records_chain o && is_expression_kind kind)
      then reads_by (taking_records ps) body
      else []
  reduction_reads _ = []

  abbrev pub all_reads : List Node → List String
  all_reads [] = []
  all_reads (n ∷ ns) = reduction_reads n ++ all_reads ns

-- Does the node take an extremum of the records? It is a call of `Math.min` or `Math.max` with
-- `...records.map(…)` among its arguments, or it indexes what `sort` or `toSorted` makes of them.
abbrev pub spreads_map : Node → Bool
spreads_map (spread (call (member o p c) _)) =
    name_is (property_name p c) "map" && is_env_records_chain o
spreads_map _ = false

abbrev pub takes_extremum : Node → Bool
takes_extremum (call (member (identifier x) p c) args) =
    str_eq x "Math"
    && (name_is (property_name p c) "min" || name_is (property_name p c) "max")
    && any spreads_map (elems args)
takes_extremum (member (call (member o p c) _) _ true) =
    (name_is (property_name p c) "sort" || name_is (property_name p c) "toSorted")
    && is_env_records_chain o
takes_extremum _ = false

visit_field-reads :
    (param : String) (n : Node) (fields : List String)
    → visit_field param n fields ≡ fields ++ field_read param n
unfolding visit_field
visit_field-reads param (member (identifier x) p c) fields = elim (Bool-cases (str_eq x param)) [
  | inl same ↦ rw same (push (property_name p c))
  | inr other ↦ rw other (sym (append-nil fields))
]
  where
    push : (o : Option String) → push_field o fields ≡ fields ++ named_field o
    push none = sym (append-nil fields)
    push (some f) = elim (Bool-cases (str_eq f "")) [
      | inl blank ↦ rw blank (sym (append-nil fields))
      | inr given ↦ rw given (elim (Bool-cases (str_eq f "length")) [
        | inl meta ↦ rw meta (sym (append-nil fields))
        | inr data_field ↦ rw data_field refl
      ])
    ]
visit_field-reads param _ fields = sym (append-nil fields)

fields-read :
    (param : String) (ns : List Node) (fields : List String)
    → for_each (visit_field param) ns fields ≡ fields ++ fields_read param ns
fields-read param [] fields = sym (append-nil fields)
fields-read param (n ∷ ns) fields =
    ap (for_each (visit_field param) ns) (visit_field-reads param n fields)
    ∙ fields-read param ns (fields ++ field_read param n)
    ∙ append_assoc fields (field_read param n) (fields_read param ns)

for_each-append :
    (fs gs : List String) (counts : Assoc ℕ)
    → for_each count_field (fs ++ gs) counts
      ≡ for_each count_field gs (for_each count_field fs counts)
for_each-append [] gs counts = refl
for_each-append (f ∷ fs) gs counts = for_each-append fs gs (count_field f counts)

reduces :
    (o : Option String)
    → has_name o reduce_methods ≡ (name_is o "reduce" || name_is o "reduceRight")
reduces none = refl
reduces (some x) = grind (
  arith,
  str_eq_iff x "reduce",
  str_eq_iff "reduce" x,
  str_eq_iff x "reduceRight",
  str_eq_iff "reduceRight" x,
)

record_parameter-eq : (ps : Nodes) → record_parameter ps ≡ taking_records ps
record_parameter-eq Nodes.nil = refl
record_parameter-eq (Nodes.cons p Nodes.nil) = refl
record_parameter-eq (Nodes.cons p (Nodes.cons q _)) = refl

is_callback-eq :
    (kind : FunctionKind) (id body : Node) (ps rest : Nodes)
    → is_callback (Nodes.cons (function kind id ps body) rest) ≡ is_expression_kind kind
is_callback-eq arrow id body ps rest = refl
is_callback-eq expression id body ps rest = refl
is_callback-eq _ id body ps rest = refl

module _ (visits : Node → List Node) where
  fields_of-reads :
      (o : Option String) (body : Node) → fields_of visits o body ≡ reads_by visits o body
  fields_of-reads none body = refl
  fields_of-reads (some param) body = fields-read param (visits body) []

  counted :
      (a chain kind : Bool) (o : Option String) (body : Node) (counts : Assoc ℕ)
      → (if a && chain && kind
          then for_each count_field (fields_of visits o body) counts
          else counts)
        ≡ for_each count_field (if a && (chain && kind) then reads_by visits o body else []) counts
  counted true true true o body counts =
      ap (λ fs. for_each count_field fs counts) (fields_of-reads o body)
  counted true true false o body counts = refl
  counted true false kind o body counts = refl
  counted false chain kind o body counts = refl

  visit_reduction-reads :
      (n : Node) (counts : Assoc ℕ)
      → visit_reduction visits n counts ≡ for_each count_field (reduction_reads visits n) counts
  unfolding visit_reduction
  visit_reduction-reads (call (member o p c) (Nodes.cons (function kind id ps body) rest)) counts =
      rw (reduces (property_name p c), record_parameter-eq ps, is_callback-eq kind id body ps rest)
        (counted (name_is (property_name p c) "reduce" || name_is (property_name p c) "reduceRight")
          (is_env_records_chain o) (is_expression_kind kind) (taking_records ps) body counts)
  visit_reduction-reads (call (member o p c) args) counts = ground arith
  visit_reduction-reads _ counts = refl

  reductions-reads :
      (ns : List Node) (counts : Assoc ℕ)
      → for_each (visit_reduction visits) ns counts
        ≡ for_each count_field (all_reads visits ns) counts
  reductions-reads [] counts = refl
  reductions-reads (n ∷ ns) counts =
      ap (for_each (visit_reduction visits) ns) (visit_reduction-reads n counts)
      ∙ reductions-reads ns (for_each count_field (reduction_reads visits n) counts)
      ∙ sym (for_each-append (reduction_reads visits n) (all_reads visits ns) counts)

  -- The correlation guard passes exactly if the reductions read no field twice.
  pub detect_correlated_aggregations-eq-none_iff :
      (ast : Node)
      → (detect_correlated_aggregations visits ast ≡ none)
        ↔ ((field : String) → times field (all_reads visits (visits ast)) ≤ 1)
  unfolding detect_correlated_aggregations lookup first_repeated
  detect_correlated_aggregations-eq-none_iff ast =
      let reads : List String = all_reads visits (visits ast) in
      let same = reductions-reads (visits ast) [] in
      let (to, from) = counted-once reads [] in
      (
        (λ h.
            let (_, single) = to (ap first_repeated (sym same) ∙ uncorrelated _ h) in
            λ field. at_most_one field reads (single field)),
        λ once.
            ap (λ counts. correlation_violation (first_repeated counts)) same
            ∙ ap correlation_violation (from (refl, λ field some_read. omega (arith, once field))),
      )
    where
      uncorrelated : (o : Option (String × ℕ)) → correlation_violation o ≡ none → o ≡ none
      uncorrelated none h = refl
      uncorrelated (some (f, n)) h = absurd (cc h)

      at_most_one :
          (field : String) (fs : List String)
          → (1 ≤ times field fs → 0 + times field fs ≤ 1)
          → times field fs ≤ 1
      at_most_one field fs single = ground arith

extremum_stays : (ns : List Node) (v : TaintViolation) → for_each visit_min_max ns (some v) ≡ some v
unfolding visit_min_max
extremum_stays [] v = refl
extremum_stays (n ∷ ns) v = extremum_stays ns v

spreads_map-eq : (n : Node) → is_spread_of_map n ≡ spreads_map n
spreads_map-eq (spread (call (member o p c) _)) = refl
spreads_map-eq (spread (call _ _)) = refl
spreads_map-eq (spread _) = refl
spreads_map-eq _ = refl

any-spreads : (ns : List Node) → any is_spread_of_map ns ≡ any spreads_map ns
any-spreads [] = refl
any-spreads (n ∷ ns) = ground (arith, spreads_map-eq n, any-spreads ns)

-- The verdict of a visitor, by its test.
abbrev Judged : Option TaintViolation → Bool → Type 0
Judged o b = ((o ≡ none) × (b ≡ false)) ⊎ ((b ≡ true) × (v : TaintViolation) × (o ≡ some v))

judged : (b : Bool) (v : TaintViolation) → Judged (if b then some v else none) b
judged true v = inr (refl, v, refl)
judged false v = inl (refl, refl)

visit_min_max-takes : (n : Node) → Judged (visit_min_max n none) (takes_extremum n)
unfolding visit_min_max
visit_min_max-takes (call (member (identifier x) p c) args) = rw any-spreads (judged _ _)
visit_min_max-takes (member (call (member o p c) _) _ true) = judged _ _
visit_min_max-takes _ = inl (refl, refl)

extrema-taken :
    (ns : List Node)
    → (for_each visit_min_max ns none ≡ none) ↔ All (λ n. takes_extremum n ≡ false) ns
extrema-taken [] = ((λ _. tt), λ _. refl)
extrema-taken (n ∷ ns) =
    let (to, from) = extrema-taken ns in
    elim (visit_min_max-takes n) [
      | inl (none_found, innocent) ↦
          let step = ap (for_each visit_min_max ns) none_found in
          ((λ h. (innocent, to (sym step ∙ h))), λ (_, rest). step ∙ from rest)
      | inr (taken, v, found) ↦
          let stays = ap (for_each visit_min_max ns) found ∙ extremum_stays ns v in
          ((λ h. absurd (cc (sym stays ∙ h))), λ (innocent, _). absurd (cc (taken, innocent)))
    ]

-- The min/max gate passes exactly if no node takes an extremum of the records.
pub detect_min_max_extraction-eq-none_iff :
    (visits : Node → List Node) (ast : Node)
    → (detect_min_max_extraction visits ast ≡ none)
      ↔ All (λ n. takes_extremum n ≡ false) (visits ast)
unfolding detect_min_max_extraction
detect_min_max_extraction-eq-none_iff visits ast = extrema-taken (visits ast)
