-- ===== src/Crypto/LogicImageId/Envelope.antt =====
-- sdks/typescript/src/crypto/logic-image-id.ts: programs in and without an envelope.
use Prim.Native.Char.{Char, code}
use Prim.Native.String.{◌++◌, char_at}
use text.Mathlib.TextLemmas.{nil-append, cons-append, append_assoc}
use neural_mesh_protocol.Prelude.{
  String, Bool, true, false, ◌&&◌, none, some, ◌≡◌, refl, sym, ap, ◌∙◌, ◌==◌, if◌then◌else◌, arith,
}
use neural_mesh_protocol.Prelude.Prefix.{strip_prefix, strip_prefix-append}
use neural_mesh_protocol.Prelude.Trim.{is_space, trim_start, trim, trim-trim, trim-newline}
use neural_mesh_protocol.Crypto.LogicImageId.{
  after_brace, after_header, is_blank, is_end, push_char, until_end, until_end_of, after_header_of,
  envelope_body, body_or, normalize_logic_source,
}

-- A text without a closing brace.
and_false : (b : Bool) → (b && false) ≡ false
and_false b = ground arith

abbrev pub has_no_brace : String → Bool
has_no_brace String.[] = true
has_no_brace (String.◌∷◌ c s) = if code c == b'}' then false else has_no_brace s

abbrev is_empty : String → Bool
is_empty String.[] = true
is_empty (String.◌∷◌ c s) = false

-- A program in an envelope.
unfoldable pub wrap : (header body : String) → String
wrap header body = "@LIOP{" ++ (header ++ ("}\n" ++ (body ++ "\n@END")))

after_brace-append :
    (header rest : String)
    → has_no_brace header ≡ true
    → after_brace (header ++ ("}\n" ++ rest)) ≡ some ("\n" ++ rest)
unfolding after_brace
after_brace-append String.[] rest h =
    rw (nil-append ("}\n" ++ rest), cons-append (char_at "}" 0) "\n" rest) refl
after_brace-append (String.◌∷◌ c s) rest h =
    rw (cons-append c s ("}\n" ++ rest)) (ground (arith, h, after_brace-append s rest))

is_blank-end : (s : String) → is_blank (s ++ "\n@END") ≡ false
unfolding is_blank is_space
is_blank-end String.[] = refl
is_blank-end (String.◌∷◌ c s) =
    rw (cons-append c s "\n@END", is_blank-end s) (and_false (is_space (code c)))

is_end-append : (s : String) → is_end (s ++ "\n@END") ≡ false
unfolding is_end strip_prefix
is_end-append String.[] = refl
is_end-append (String.◌∷◌ a String.[]) = rw (cons-append a "" "\n@END") (ground arith)
is_end-append (String.◌∷◌ a (String.◌∷◌ b String.[])) =
    rw (cons-append a (String.◌∷◌ b "") "\n@END", cons-append b "" "\n@END") (ground arith)
is_end-append (String.◌∷◌ a (String.◌∷◌ b (String.◌∷◌ c String.[]))) =
    rw
      (
        cons-append a (String.◌∷◌ b (String.◌∷◌ c "")) "\n@END",
        cons-append b (String.◌∷◌ c "") "\n@END",
        cons-append c "" "\n@END",
      )
      (ground arith)
is_end-append (String.◌∷◌ a (String.◌∷◌ b (String.◌∷◌ c (String.◌∷◌ d s)))) =
    rw
      (
        cons-append a (String.◌∷◌ b (String.◌∷◌ c (String.◌∷◌ d s))) "\n@END",
        cons-append b (String.◌∷◌ c (String.◌∷◌ d s)) "\n@END",
        cons-append c (String.◌∷◌ d s) "\n@END",
        cons-append d s "\n@END",
      )
      (ground (arith, is_blank-end s))

is_end_cons : (c : Char) (s : String) → is_end (String.◌∷◌ c (s ++ "\n@END")) ≡ false
is_end_cons c s = ap is_end (sym (cons-append c s "\n@END")) ∙ is_end-append (String.◌∷◌ c s)

until_end-append : (s : String) → until_end (s ++ "\n@END") ≡ some (s ++ "\n")
unfolding until_end is_end strip_prefix is_blank
until_end-append String.[] = refl
until_end-append (String.◌∷◌ c s) =
    ap until_end (cons-append c s "\n@END")
    ∙ ap
        (λ b.
          if b
          then some ""
          else push_char (String.◌∷◌ c (s ++ "\n@END")) (until_end (s ++ "\n@END")))
        (is_end_cons c s)
    ∙ ap (push_char (String.◌∷◌ c (s ++ "\n@END"))) (until_end-append s)
    ∙ ap some (sym (cons-append c s "\n"))

after_header-append :
    (header rest : String)
    → has_no_brace header ≡ true
    → is_empty header ≡ false
    → after_header (header ++ ("}\n" ++ rest)) ≡ some ("\n" ++ rest)
unfolding after_header
after_header-append String.[] rest h n = absurd (cc n)
after_header-append (String.◌∷◌ c s) rest h n =
    rw (cons-append c s ("}\n" ++ rest)) (ground (arith, h, after_brace-append s rest))

trim_start-start : (s : String) → trim_start ("@LIOP{" ++ s) ≡ "@LIOP{" ++ s
unfolding trim_start is_space
trim_start-start s = rw (cons-append (char_at "@" 0) "LIOP{" s) refl

trim-line : (s : String) → trim ("\n" ++ s) ≡ trim s
unfolding trim trim_start is_space
trim-line s = rw (cons-append (char_at "\n" 0) "" s, nil-append s) refl

-- The logic in an envelope, whose header is not empty and has no closing brace, is the logic.
pub normalize_logic_source-wrap :
    (header body : String)
    → has_no_brace header ≡ true
    → is_empty header ≡ false
    → normalize_logic_source (wrap header body) ≡ trim body
unfolding normalize_logic_source envelope_body wrap
normalize_logic_source-wrap header body h n =
    let rest : String = header ++ ("}\n" ++ (body ++ "\n@END")) in
    let found : envelope_body (wrap header body) ≡ some (("\n" ++ body) ++ "\n") =
      ap (λ s. until_end_of (after_header_of (strip_prefix "@LIOP{" s))) (trim_start-start rest)
      ∙ ap (λ o. until_end_of (after_header_of o)) (strip_prefix-append "@LIOP{" rest)
      ∙ ap until_end_of (after_header-append header (body ++ "\n@END") h n)
      ∙ ap until_end (sym (append_assoc "\n" body "\n@END"))
      ∙ until_end-append ("\n" ++ body) in
    ap (λ o. trim (body_or o (wrap header body))) found
    ∙ trim-newline ("\n" ++ body)
    ∙ trim-line body

-- A program that is no envelope once it has been normalized is not changed by a second time.
pub normalize_logic_source-normalize_logic_source :
    (text : String)
    → envelope_body (normalize_logic_source text) ≡ none
    → normalize_logic_source (normalize_logic_source text) ≡ normalize_logic_source text
unfolding normalize_logic_source
normalize_logic_source-normalize_logic_source text h =
    ap (λ o. trim (body_or o (normalize_logic_source text))) h
    ∙ trim-trim (body_or (envelope_body text) text)
