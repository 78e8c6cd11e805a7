-- ===== src/Security/Taint/Analysis.antt =====
-- sdks/typescript/src/security/taint-analyzer.ts: what `analyze` guarantees of a program that it lets through.
use neural_mesh_protocol.Prelude.{
  ℕ, ◌<◌, ◌≤◌, String, ◌≡◌, refl, sym, subst, ◌↔◌, Bool, true, false, not, ◌&&◌, Option, none, some,
  List, [], ◌∷◌, All, arith, Bool-cases, inl, inr,
}
use neural_mesh_protocol.Security.Taint.Ast.{Node, return, is_null, size}
use neural_mesh_protocol.Security.Taint.Eval.{Names}
use neural_mesh_protocol.Security.Taint.Pure.{dirty}
use neural_mesh_protocol.Security.Taint.Refines.{tainted-eq-dirty}
use neural_mesh_protocol.Security.Taint.Passes.{
  TaintViolation, for_each, record_bound_vars, is_expression_tainted, tainted_vars, visit_return,
  check_return_statements, return_violation, describe_taint_source,
}
use neural_mesh_protocol.Security.Taint.Repeats.{times}
use neural_mesh_protocol.Security.Taint.SmallData.{all_reads, takes_extremum}
use neural_mesh_protocol.Security.Taint.Analyze.{TaintAnalyzer}

module _ (pii : List String) (visits : Node → List Node) where
  -- The taint of an expression, as a predicate.
  abbrev pub is_dirty : Names → Names → Node → Bool
  is_dirty records s n = dirty pii visits (size n) records s n

  -- A return of a value whose expression is tainted.
  abbrev pub leaks : Names → Names → Node → Bool
  leaks records s (return _ a) = not (is_null a) && is_dirty records s a
  leaks records s _ = false

  visit_return-clean :
      (records s : Names) (n : Node)
      → leaks records s n ≡ false
      → visit_return pii visits records n (none, s) ≡ (none, s)
  unfolding visit_return is_expression_tainted
  visit_return-clean records s (return line a) h =
      ground (arith, tainted-eq-dirty pii visits (size a) records a s)
  visit_return-clean records s _ h = refl

  visit_return-leak :
      (records s : Names) (n : Node)
      → leaks records s n ≡ true
      → (v : TaintViolation) × (visit_return pii visits records n (none, s) ≡ (some v, s))
  unfolding visit_return is_expression_tainted
  visit_return-leak records s (return line a) h = (
    return_violation line (describe_taint_source pii visits records a s),
    ground (arith, tainted-eq-dirty pii visits (size a) records a s),
  )
  visit_return-leak records s _ h = cc

  -- Once there is a violation, it stays.
  violation_stays :
      (records s : Names) (v : TaintViolation) (ns : List Node)
      → for_each (visit_return pii visits records) ns (some v, s) ≡ (some v, s)
  unfolding visit_return
  violation_stays records s v [] = refl
  violation_stays records s v (n ∷ ns) = violation_stays records s v ns

  check_returns :
      (records s : Names) (ns : List Node)
      → ((for_each (visit_return pii visits records) ns (none, s)).0 ≡ none)
        ↔ All (λ n. leaks records s n ≡ false) ns
  check_returns records s [] = (λ _. tt, λ _. refl)
  check_returns records s (n ∷ ns) = elim (Bool-cases (leaks records s n)) [
    | inl leak ↦
        let (v, e) = visit_return-leak records s n leak in
        subst (λ st. Passes (for_each (visit_return pii visits records) ns st)) (sym e)
          (rw violation_stays ((λ h. cc), (λ h. cc (leak, h.0))))
    | inr clean ↦
        subst (λ st. Passes (for_each (visit_return pii visits records) ns st))
          (sym (visit_return-clean records s n clean))
          (
            (λ h. (clean, (check_returns records s ns).0 h)),
            λ h. (check_returns records s ns).1 h.1,
          )
  ]
    where
      Passes : Option TaintViolation × Names → Type 0
      Passes st = (st.0 ≡ none) ↔ All (λ m. leaks records s m ≡ false) (n ∷ ns)

  -- The check of the return statements passes exactly if no return leaks.
  pub check_return_statements-eq-none_iff :
      (ast : Node) (records s : Names)
      → (check_return_statements pii visits ast records s ≡ none)
        ↔ All (λ n. leaks records s n ≡ false) (visits ast)
  unfolding check_return_statements
  check_return_statements-eq-none_iff ast records s = check_returns records s (visits ast)

-- The dataset is small: its number of records is known, positive and below the threshold.
abbrev pub IsSmall : Option ℕ → (threshold : ℕ) → Type 0
IsSmall record_count threshold = (n : ℕ) × (record_count ≡ some n) × (0 < n) × (n < threshold)

-- A program that is let through has no return of a tainted value, and where the dataset is small
-- its reductions read no field twice, and no node takes an extremum of the records.
pub record IsClean (visits : Node → List Node) (a : TaintAnalyzer) (ast : Node)
    (record_count : Option ℕ) (threshold : ℕ) : Type 0 where
  pub returns :
      All
        (λ n.
          leaks a.pii_fields visits
            (record_bound_vars visits ast)
            (tainted_vars a.pii_fields visits ast (record_bound_vars visits ast))
            n
          ≡ false)
        (visits ast)
  pub uncorrelated :
      IsSmall record_count threshold
      → (field : String) → times field (all_reads visits (visits ast)) ≤ 1
  pub no_extrema : IsSmall record_count threshold → All (λ n. takes_extremum n ≡ false) (visits ast)
