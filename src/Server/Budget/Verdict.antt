-- ===== src/Server/Budget/Verdict.antt =====
-- sdks/typescript/src/server/index.ts: which queries the budget lets through.
use neural_mesh_protocol.Prelude.{
  ℕ, ◌<◌, String, false, ◌||◌, ◌≡◌, ◌↔◌, ◌⊎◌, inl, inr, refl, none, List, [], ◌∷◌, arith, All,
}
use neural_mesh_protocol.Prelude.Assoc.{Assoc, lookup}
use neural_mesh_protocol.Security.Taint.Gates.{count_of}
use neural_mesh_protocol.Security.Taint.Analyze.{TaintAnalyzer}
use neural_mesh_protocol.Server.Budget.{
  FieldQueryBudget, LogicExecutionPolicy, limit_of, first_exceeded, tool_budget_of, is_unsafe_key,
  apply_in_memory_budget, enforce_query_budget,
}
use neural_mesh_protocol.Server.Budget.Quota.{used, spend-verdict}

first_exceeded_sound :
    (limits : String → ℕ × String) (counts : Assoc ℕ) (fields : List String)
    → first_exceeded limits counts fields ≡ none
    → All (λ f. count_of (lookup f counts) < (limits f).0) fields
unfolding first_exceeded
first_exceeded_sound limits counts [] e = tt
first_exceeded_sound limits counts (f ∷ fields) e =
    ground (arith, first_exceeded_sound limits counts fields)

first_exceeded_complete :
    (limits : String → ℕ × String) (counts : Assoc ℕ) (fields : List String)
    → All (λ f. count_of (lookup f counts) < (limits f).0) fields
    → first_exceeded limits counts fields ≡ none
unfolding first_exceeded
first_exceeded_complete limits counts [] h = refl
first_exceeded_complete limits counts (f ∷ fields) (h, hs) =
    ground (arith, first_exceeded_complete limits counts fields hs)

module _ (a : TaintAnalyzer) (policy : LogicExecutionPolicy) (client tool : String)
    (budget : FieldQueryBudget) where
  -- A query fits the budget: it reads no field, or the names of the client and the tool are not
  -- refused and each field that it reads has a query left.
  abbrev pub Fits : List String → Type 0
  Fits fields =
      (fields ≡ [])
      ⊎ (((is_unsafe_key client || is_unsafe_key tool) ≡ false)
          × All (λ f. used budget client tool f < (limit_of a policy f).0) fields)

  fits :
      (fields : List String)
      → (enforce_query_budget a policy client tool fields budget).0 ≡ none
      → Fits fields
  unfolding enforce_query_budget apply_in_memory_budget
  fits [] e = inl refl
  fits (f ∷ fields) e =
      let limits = limit_of a policy in
      let counts = tool_budget_of client tool budget in
      let verdict = first_exceeded limits counts (f ∷ fields) in
      let (safe, none_exceeded) : ((is_unsafe_key client || is_unsafe_key tool) ≡ false)
          × (verdict ≡ none) =
        ground (arith, spend-verdict client tool (f ∷ fields) budget verdict) in
      inr (safe, first_exceeded_sound limits counts (f ∷ fields) none_exceeded)

  passes :
      (fields : List String)
      → Fits fields
      → (enforce_query_budget a policy client tool fields budget).0 ≡ none
  unfolding enforce_query_budget apply_in_memory_budget
  passes [] h = refl
  passes (f ∷ fields) (inl e) = absurd (cc e)
  passes (f ∷ fields) (inr (safe, below)) =
      let limits = limit_of a policy in
      let counts = tool_budget_of client tool budget in
      let verdict = first_exceeded limits counts (f ∷ fields) in
      ground (
        arith,
        spend-verdict client tool (f ∷ fields) budget verdict,
        first_exceeded_complete limits counts (f ∷ fields) below,
      )

  -- The budget lets a query through exactly if the query fits.
  pub enforce_query_budget-eq-none_iff :
      (fields : List String)
      → ((enforce_query_budget a policy client tool fields budget).0 ≡ none) ↔ Fits fields
  enforce_query_budget-eq-none_iff fields = (fits fields, passes fields)
