-- ===== src/Security/Rbac/Laws.antt =====
-- sdks/typescript/src/security/rbac.ts: when a request is authorised.
use Prim.Native.String
use neural_mesh_protocol.Prelude.{
  String, ◌≡◌, refl, ap, subst, ◌⊎◌, if◌then◌else◌, str_eq, str_eq_iff, ◌≢◌, ◌↔◌, inl, inr, true,
  false, Option, none, some, List, [], ◌∷◌, ◌++◌, ◌∙◌, sym, All, arith, Bool-cases,
}
use neural_mesh_protocol.Prelude.Assoc.{
  Assoc, keys, has, lookup, lookup-eq-none, has-append, by_keys,
}
use neural_mesh_protocol.Security.Rbac.{
  AuthInfo, Property, own, undefined, inherited_function, prototype, allowed, denied, returns,
  scope_map, prototype_functions, method_scopes, is_public, needed_scopes, missing_scopes,
  verify_needed, verify_missing, verify_scopes, authenticate, authorize_request,
}

-- The client holds every scope of the list.
abbrev pub HoldsAll : List String → List String → Type 0
HoldsAll client needed = All (λ s. has s client ≡ true) needed

missing-nil_iff :
    (client needed : List String) → (missing_scopes client needed ≡ []) ↔ HoldsAll client needed
unfolding missing_scopes
missing-nil_iff client [] = (λ h. tt, λ h. refl)
missing-nil_iff client (s ∷ rest) = ground (arith, missing-nil_iff client rest)

-- A client that is not public is let through exactly if it needs some scope and holds all.
verify_needed_iff :
    (method : String) (client needed : List String)
    → (verify_needed method client needed ≡ allowed) ↔ ((needed ≢ []) × HoldsAll client needed)
unfolding verify_needed verify_missing
verify_needed_iff method client [] = ground arith
verify_needed_iff method client (s ∷ rest) = ground (arith, missing-nil_iff client (s ∷ rest))

-- The methods that need no token: the four that the map lists as public, and the three functions
-- without parameters that every object inherits.
abbrev pub open_methods : List String
open_methods =
    "initialize" ∷ "notifications/initialized" ∷ "notifications/cancelled" ∷ "ping"
    ∷ "toLocaleString" ∷ "toString" ∷ "valueOf" ∷ []

-- The scope that a method needs of its own.
abbrev pub needs : Assoc String
needs =
    ("tools/list", "liop:tools:list")
    ∷ ("tools/call", "liop:tools:call")
    ∷ ("resources/list", "liop:resources:read")
    ∷ ("resources/read", "liop:resources:read")
    ∷ ("prompts/list", "liop:schema:read")
    ∷ ("prompts/get", "liop:schema:read")
    ∷ []

-- The other names that every object inherits: a request for one of them with a token raises an error.
abbrev pub raising_methods : List String
raising_methods =
    "constructor" ∷ "hasOwnProperty" ∷ "isPrototypeOf" ∷ "propertyIsEnumerable" ∷ "__defineGetter__"
    ∷ "__defineSetter__" ∷ "__lookupGetter__" ∷ "__lookupSetter__" ∷ "__proto__" ∷ []

-- A client with these scopes is let through, for the scope of the method and those of the node: it
-- holds all of them, and there is at least one.
abbrev pub Suffices : (client : List String) (own : Option String) (more : List String) → Type 0
Suffices client none more = (more ≢ []) × HoldsAll client more
Suffices client (some s) more = (has s client ≡ true) × HoldsAll client more

abbrev pub list_of : Option (List String) → List String
list_of none = []
list_of (some more) = more

-- What it takes to be authorised.
abbrev pub IsAuthorized :
    (method : String) (auth : Option AuthInfo) (additional : Option (List String)) → Type 0
IsAuthorized method auth additional =
    (has method open_methods ≡ true)
    ⊎ ((info : AuthInfo) × (auth ≡ some info)
        × (has method raising_methods ≡ false)
        × Suffices info.scopes (lookup method needs) (list_of additional))

not_open :
    (method : String)
    → has method (keys scope_map ++ keys prototype_functions) ≡ false
    → has method open_methods ≡ false
unfolding scope_map prototype_functions
not_open =
    by_keys
      (λ m. has m (keys scope_map ++ keys prototype_functions) ≡ false → has m open_methods ≡ false)
      open_methods (ground arith) (λ m e _. e)

is_public-elsewhere :
    (method : String)
    → has method (keys scope_map) ≡ false
    → has method (keys prototype_functions) ≡ false
    → is_public (method_scopes method) ≡ false
unfolding method_scopes is_public
is_public-elsewhere method h k =
    ground (arith, lookup-eq-none method scope_map h, lookup-eq-none method prototype_functions k)

is_public-eq-has : (method : String) → is_public (method_scopes method) ≡ has method open_methods
unfolding method_scopes scope_map prototype_functions is_public lookup
is_public-eq-has =
    by_keys (λ m. is_public (method_scopes m) ≡ has m open_methods)
      (keys scope_map ++ keys prototype_functions) (ground arith)
      λ m h.
        let (not_own, not_inherited) = has-append m (keys scope_map) (keys prototype_functions) h in
        is_public-elsewhere m not_own not_inherited ∙ sym (not_open m h)

-- The scopes of the map, if its value can be spread.
abbrev spread : Property → Option (List String)
spread (own scopes) = some scopes
spread undefined = some []
spread (inherited_function arity) = none
spread prototype = none

abbrev own_scopes : Option String → List String
own_scopes none = []
own_scopes (some s) = s ∷ []

abbrev joined : Option (List String) → List String → Option (List String)
joined none more = none
joined (some scopes) more = some (scopes ++ more)

needed_scopes-eq-joined :
    (p : Property) (additional : Option (List String))
    → needed_scopes p additional ≡ joined (spread p) (list_of additional)
unfolding needed_scopes
needed_scopes-eq-joined (own scopes) none = refl
needed_scopes-eq-joined (own scopes) (some more) = refl
needed_scopes-eq-joined undefined none = refl
needed_scopes-eq-joined undefined (some more) = refl
needed_scopes-eq-joined (inherited_function arity) none = refl
needed_scopes-eq-joined (inherited_function arity) (some more) = refl
needed_scopes-eq-joined prototype none = refl
needed_scopes-eq-joined prototype (some more) = refl

abbrev tabled : String → Option (List String)
tabled m = if has m raising_methods then none else some (own_scopes (lookup m needs))

-- The keys of the map, the functions that it inherits, and its prototype.
abbrev names : List String
names = "__proto__" ∷ keys scope_map ++ keys prototype_functions

not_raising : (method : String) → has method names ≡ false → has method raising_methods ≡ false
unfolding scope_map prototype_functions
not_raising =
    by_keys (λ m. has m names ≡ false → has m raising_methods ≡ false) raising_methods
      (ground arith) (λ m e _. e)

not_needed : (method : String) → has method names ≡ false → lookup method needs ≡ none
unfolding scope_map prototype_functions
not_needed =
    by_keys (λ m. has m names ≡ false → lookup m needs ≡ none) (keys needs) (ground arith)
      (λ m e _. lookup-eq-none m needs e)

not_proto :
    (method : String) → str_eq "__proto__" method ≡ false → str_eq method "__proto__" ≡ false
not_proto method h = grind (arith, str_eq_iff "__proto__" method, str_eq_iff method "__proto__")

spread-elsewhere :
    (method : String) → has method names ≡ false → spread (method_scopes method) ≡ some []
unfolding method_scopes
spread-elsewhere method h =
    let (no_proto, elsewhere) =
      has-append method ("__proto__" ∷ []) (keys scope_map ++ keys prototype_functions) h in
    let (not_own, not_inherited) =
      has-append method (keys scope_map) (keys prototype_functions) elsewhere in
    rw
      (
        lookup-eq-none method scope_map not_own,
        lookup-eq-none method prototype_functions not_inherited,
        not_proto method (ground (arith, no_proto)),
      )
      refl

-- Of a method that is not open, the map gives the scopes of the table.
spread-eq-tabled :
    (method : String)
    → has method open_methods ≡ false
    → spread (method_scopes method) ≡ tabled method
unfolding method_scopes scope_map prototype_functions lookup
spread-eq-tabled =
    by_keys (λ m. has m open_methods ≡ false → spread (method_scopes m) ≡ tabled m) names
      (ground arith) λ m h _. spread-elsewhere m h ∙ sym (rw (not_raising m h, not_needed m h) refl)

Suffices-iff :
    (client : List String) (own : Option String) (more : List String)
    → ((own_scopes own ++ more ≢ []) × HoldsAll client (own_scopes own ++ more))
      ↔ Suffices client own more
Suffices-iff client none more = ((λ h. h), λ h. h)
Suffices-iff client (some s) more = ((λ (_, h). h), λ h. ((λ e. absurd (cc e)), h))

-- A request with a token for a method that is not open.
verify_scopes_iff :
    (method : String) (info : AuthInfo) (more : List String)
    → (verify_scopes method info (joined (tabled method) more) ≡ returns allowed)
      ↔ ((has method raising_methods ≡ false) × Suffices info.scopes (lookup method needs) more)
unfolding verify_scopes
verify_scopes_iff method info more =
    let own : Option String = lookup method needs in
    let (holds, suffices) = Suffices-iff info.scopes own more in
    let (sound, complete) = verify_needed_iff method info.scopes (own_scopes own ++ more) in
    elim (Bool-cases (has method raising_methods)) [
      | inl raises ↦ rw raises ((λ h. absurd (cc h)), λ (h, _). absurd (cc h))
      | inr quiet ↦
          rw quiet
            ((λ h. (refl, holds (sound (cc h)))), λ (_, h). ap returns (complete (suffices h)))
    ]

authenticate_iff :
    (method : String) (auth : Option AuthInfo) (additional : Option (List String))
    → has method open_methods ≡ false
    → (authenticate method (method_scopes method) auth additional ≡ returns allowed) ↔ (
        (info : AuthInfo) × (auth ≡ some info)
        × (has method raising_methods ≡ false)
        × Suffices info.scopes (lookup method needs) (list_of additional))
unfolding authenticate
authenticate_iff method none additional closed =
    ((λ h. absurd (cc h)), λ (_, h, _, _). absurd (cc h))
authenticate_iff method (some info) additional closed =
    let more : List String = list_of additional in
    let by_table : needed_scopes (method_scopes method) additional ≡ joined (tabled method) more =
      needed_scopes-eq-joined (method_scopes method) additional
      ∙ ap (λ p. joined p more) (spread-eq-tabled method closed) in
    let (sound, complete) = verify_scopes_iff method info more in
    (
      (λ h.
          let (quiet, holds) = sound (sym (ap (verify_scopes method info) by_table) ∙ h) in
          (info, refl, quiet, holds)),
      λ (i, same, quiet, holds).
          let same_info : i ≡ info = cc same in
          ap (verify_scopes method info) by_table
          ∙ complete (
            quiet,
            subst (λ (a : AuthInfo). Suffices a.scopes (lookup method needs) more) same_info holds,
          ),
    )

-- A request is allowed exactly when its method is `initialize`, `notifications/initialized`,
-- `notifications/cancelled`, `ping`, `toLocaleString`, `toString` or `valueOf`, or when it carries
-- a token, its method is no other name that an object inherits, and the token holds the scope that
-- the method needs, which is `liop:tools:list` for `tools/list`, `liop:tools:call` for
-- `tools/call`, `liop:resources:read` for the methods of resources, `liop:schema:read` for those of
-- prompts and none for others, and every scope that the node adds, at least one in all.
pub authorize_iff :
    (method : String) (auth : Option AuthInfo) (additional : Option (List String))
    → (authorize_request method auth additional ≡ returns allowed)
      ↔ IsAuthorized method auth additional
unfolding authorize_request
authorize_iff method auth additional = elim (Bool-cases (has method open_methods)) [
  | inl is_open ↦ rw (is_public-eq-has method ∙ is_open) ((λ _. inl is_open), λ _. refl)
  | inr closed ↦
      let (sound, complete) = authenticate_iff method auth additional closed in
      rw (is_public-eq-has method ∙ closed) (
        (λ h. inr (sound h)),
        λ why. elim why [ inl is_open ↦ absurd (cc (is_open, closed)) | inr held ↦ complete held ],
      )
]

pub unauthenticated_iff :
    (method : String) (additional : Option (List String))
    → (authorize_request method none additional ≡ returns allowed)
      ↔ (has method open_methods ≡ true)
unfolding authorize_request authenticate
unauthenticated_iff method additional = ground (arith, is_public-eq-has method)

pub unauthenticated_denied :
    (method : String)
    → has method open_methods ≡ false
    → authorize_request method none none
      ≡ returns (denied (String.◌++◌ "Authentication required for method: " method))
unfolding authorize_request authenticate
unauthenticated_denied method h = elim (Bool-cases (is_public (method_scopes method))) [
  | inl open_method ↦ absurd (cc (sym open_method ∙ is_public-eq-has method, h))
  | inr closed ↦ rw closed refl
]
