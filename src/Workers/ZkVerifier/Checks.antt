-- ===== src/Workers/ZkVerifier/Checks.antt =====
-- sdks/typescript/src/workers/zk-verifier.ts: the single checks, and the format of a receipt.
use neural_mesh_protocol.Prelude.{
  ℕ, suc, ◌+◌, ◌*◌, ◌/◌, ◌%◌, subst, ◌<◌, ◌≤◌, String, Bool, true, false, Option, none, some, [],
  ◌∷◌, ◌++◌, length, take, drop, str_eq, str_eq_iff, if◌then◌else◌, ◌≡◌, ◌↔◌, refl, sym, ap, ◌∙◌,
  arith, ◌⊎◌, inl, inr, All, take-append, drop-append, length-append, take-append-drop, length-take,
  length-drop,
}
use neural_mesh_protocol.Prelude.Bytes.{Bytes, byte_at, read_uint16_be, uint16_be, bytes_eq_iff}
use neural_mesh_protocol.Prelude.Json.{Json, null, boolean, number, string, array, object, member}
use neural_mesh_protocol.Workers.Runtime.{Runtime, output_text}
use neural_mesh_protocol.Workers.ZkVerifier.Scan.{try_extract_proxy_output}
use neural_mesh_protocol.Workers.ZkVerifier.{
  Verdict, verified, journal_image_id_mismatch, invalid_seal, output_hash_mismatch, or_verdict,
  check_journal_image, check_output_hash, check_seal, expected_output_hash, check_output,
  actual_expected,
}

-- The receipt is version 1 of the journal and of a seal of 32 bytes.
abbrev pub IsReceipt : (receipt journal seal : Bytes) → Type 0
IsReceipt receipt journal seal =
    (receipt ≡ 1 ∷ uint16_be (length journal) ++ journal ++ seal)
    × (length seal ≡ 32)
    × (length journal < 65536)

abbrev pub IsBuffer : Bytes → Type 0
IsBuffer buffer = All (λ b. b < 256) buffer

-- The seal is the HMAC of the journal, where there is a session secret.
abbrev pub IsSealed : Runtime → (session_secret : Option Bytes) → (journal seal : Bytes) → Type 0
IsSealed runtime none journal seal = Unit
IsSealed runtime (some []) journal seal = Unit
IsSealed runtime (some (k ∷ secret)) journal seal = seal ≡ runtime.hmac_sha256 (k ∷ secret) journal

-- The output that the journal must have: the object that the logic carries, where it carries one,
-- and otherwise the output that the caller expects.
abbrev pub IsWanted : (carried : Option Json) (expected_output wanted : Json) → Type 0
IsWanted carried expected_output wanted =
    (carried ≡ some wanted) ⊎ ((carried ≡ none) × (wanted ≡ expected_output))

-- Where an output is expected, the journal has the hash of the wanted one.
abbrev pub HasOutput : Runtime → (logic : Bytes) (expected_output : Option Json) → Json → Type 0
HasOutput runtime logic none journal_data = Unit
HasOutput runtime logic (some expected_output) journal_data =
    (wanted : Json) × IsWanted (try_extract_proxy_output runtime logic) expected_output wanted
    × (member "output_hash" journal_data
        ≡ some (string (runtime.sha256_hex (runtime.utf8 (output_text runtime (some wanted))))))

IsWanted-iff :
    (P : Json → Type 0) (carried : Option Json) (expected_output : Json)
    → P (actual_expected carried expected_output)
      ↔ ((wanted : Json) × IsWanted carried expected_output wanted × P wanted)
IsWanted-iff P none e = (
  (λ h. (e, inr (refl, refl), h)),
  λ (w, why, h). elim why [
    | inl impossible ↦ absurd (cc impossible)
    | inr (_, same) ↦ subst P same h
  ],
)
IsWanted-iff P (some v) e = (
  (λ h. (v, inl refl, h)),
  λ (w, why, h). elim why [
    | inl same ↦ subst P (sym (cc same)) h
    | inr (impossible, _) ↦ absurd (cc impossible)
  ],
)

abbrev passes : Option Verdict → Bool
passes (some verified) = true
passes _ = false

pub or_verdict_iff :
    (o : Option Verdict) (v : Verdict)
    → passes o ≡ false
    → (or_verdict o v ≡ verified) ↔ ((o ≡ none) × (v ≡ verified))
or_verdict_iff none v h = ((λ e. (refl, e)), λ (n, e). e)
or_verdict_iff (some w) v h = ((λ e. absurd (cc (h, e))), λ (n, e). absurd (cc n))

check_iff :
    {P : Type 0} (b : Bool) (bad : Verdict)
    → passes (some bad) ≡ false
    → (b ≡ true) ↔ P
    → (passes (if b then none else some bad) ≡ false)
      × (((if b then none else some bad) ≡ none) ↔ P)
check_iff true bad h p = (refl, ((λ _. p.0 refl), λ _. refl))
check_iff false bad h p = (h, ((λ e. absurd (cc e)), λ q. absurd (cc (p.1 q))))

text_iff :
    (t u : String)
    → (str_eq t u ≡ true) ↔ (◌≡◌ {A = Option Json} (some (string t)) (some (string u)))
text_iff t u =
    ((λ h. ap (λ x. some (string x)) ((str_eq_iff t u).0 h)), λ e. (str_eq_iff t u).1 (cc e))

pub check_journal_image_iff :
    (local : String) (m : Option Json)
    → (passes (check_journal_image local m) ≡ false)
      × ((check_journal_image local m ≡ none) ↔ (m ≡ some (string local)))
unfolding check_journal_image
check_journal_image_iff local none = (refl, ((λ e. absurd (cc e)), λ e. absurd (cc e)))
check_journal_image_iff local (some (string t)) =
    check_iff (str_eq t local) journal_image_id_mismatch refl (text_iff t local)
check_journal_image_iff local (some null) = (refl, ((λ e. absurd (cc e)), λ e. absurd (cc e)))
check_journal_image_iff local (some (boolean b)) =
    (refl, ((λ e. absurd (cc e)), λ e. absurd (cc e)))
check_journal_image_iff local (some (number b)) = (refl, ((λ e. absurd (cc e)), λ e. absurd (cc e)))
check_journal_image_iff local (some (array b)) = (refl, ((λ e. absurd (cc e)), λ e. absurd (cc e)))
check_journal_image_iff local (some (object b)) = (refl, ((λ e. absurd (cc e)), λ e. absurd (cc e)))

check_output_hash_iff :
    (expected : String) (m : Option Json)
    → (passes (check_output_hash expected m) ≡ false)
      × ((check_output_hash expected m ≡ none) ↔ (m ≡ some (string expected)))
unfolding check_output_hash
check_output_hash_iff expected none = (refl, ((λ e. absurd (cc e)), λ e. absurd (cc e)))
check_output_hash_iff expected (some (string t)) =
    check_iff (str_eq t expected) output_hash_mismatch refl (text_iff t expected)
check_output_hash_iff expected (some null) = (refl, ((λ e. absurd (cc e)), λ e. absurd (cc e)))
check_output_hash_iff expected (some (boolean b)) =
    (refl, ((λ e. absurd (cc e)), λ e. absurd (cc e)))
check_output_hash_iff expected (some (number b)) =
    (refl, ((λ e. absurd (cc e)), λ e. absurd (cc e)))
check_output_hash_iff expected (some (array b)) = (refl, ((λ e. absurd (cc e)), λ e. absurd (cc e)))
check_output_hash_iff expected (some (object b)) =
    (refl, ((λ e. absurd (cc e)), λ e. absurd (cc e)))

read_parts :
    (journal seal : Bytes)
    → length journal < 65536
    → (read_uint16_be (1 ∷ uint16_be (length journal) ++ journal ++ seal) 1 ≡ length journal)
read_parts journal seal lt = omega arith

add_three : (n : ℕ) → 3 + n ≡ suc (suc (suc n))
add_three n = omega arith

header_path :
    (a b c n : ℕ) (rest : Bytes)
    → a ≡ 1
    → b ≡ n / 256 % 256
    → c ≡ n % 256
    → (a ∷ b ∷ c ∷ rest) ≡ 1 ∷ uint16_be n ++ rest
header_path a b c n rest ea eb ec = rw (ea, eb, ec) refl

pub parts-IsReceipt :
    (receipt : Bytes)
    → IsBuffer receipt
    → byte_at receipt 0 ≡ 1
    → length (drop (3 + read_uint16_be receipt 1) receipt) ≡ 32
    → IsReceipt receipt
        (take (read_uint16_be receipt 1) (drop 3 receipt))
        (drop (3 + read_uint16_be receipt 1) receipt)
parts-IsReceipt [] h one len = absurd (omega arith)
parts-IsReceipt (a ∷ []) h one len = absurd (omega (arith, len))
parts-IsReceipt (a ∷ b ∷ []) h one len =
    absurd (omega (arith, len, length-drop (3 + read_uint16_be (a ∷ b ∷ []) 1) (a ∷ b ∷ [])))
parts-IsReceipt (a ∷ b ∷ c ∷ rest) (ha, (hb, (hc, h))) one len =
    let n : ℕ = b * 256 + c in
    let seal : drop (3 + n) (a ∷ b ∷ c ∷ rest) ≡ drop n rest =
      ap (λ k. drop k (a ∷ b ∷ c ∷ rest)) (add_three n) in
    let whole : length (take n rest) ≡ n =
      omega (arith, length-take n rest, length-drop n rest, len, ap length seal) in
    (
      ap (λ l. a ∷ b ∷ c ∷ l) (sym (take-append-drop n rest))
          ∙ ap (λ l. a ∷ b ∷ c ∷ take n rest ++ l) (sym seal)
          ∙ header_path a b c (length (take n rest)) _ one (omega (arith, whole))
              (omega (arith, whole)),
      len,
      omega (arith, whole),
    )

pub receipt-IsReceipt :
    (receipt journal seal : Bytes)
    → IsReceipt receipt journal seal
    → (35 ≤ length receipt)
      × (byte_at receipt 0 ≡ 1)
      × (take (read_uint16_be receipt 1) (drop 3 receipt) ≡ journal)
      × (drop (3 + read_uint16_be receipt 1) receipt ≡ seal)
receipt-IsReceipt receipt journal seal (made, sealed, short) =
    let whole : Bytes = 1 ∷ uint16_be (length journal) ++ journal ++ seal in
    let n = read_parts journal seal short in
    subst
      (λ r.
        (35 ≤ length r)
        × (byte_at r 0 ≡ 1)
        × (take (read_uint16_be r 1) (drop 3 r) ≡ journal)
        × (drop (3 + read_uint16_be r 1) r ≡ seal))
      (sym made)
      (
        omega (arith, length-append journal seal, sealed),
        refl,
        take-append journal seal _ n,
        ap (λ k. drop k whole) (add_three (read_uint16_be whole 1)) ∙ drop-append journal seal _ n,
      )

module _ (runtime : Runtime) where
  pub check_seal_iff :
      (secret : Option Bytes) (journal seal : Bytes)
      → (passes (check_seal runtime secret journal seal) ≡ false)
        × ((check_seal runtime secret journal seal ≡ none) ↔ IsSealed runtime secret journal seal)
  unfolding check_seal
  check_seal_iff none journal seal = (refl, ((λ _. tt), λ _. refl))
  check_seal_iff (some []) journal seal = (refl, ((λ _. tt), λ _. refl))
  check_seal_iff (some (k ∷ secret)) journal seal =
      check_iff _ invalid_seal refl (bytes_eq_iff seal (runtime.hmac_sha256 (k ∷ secret) journal))

  pub check_output_iff :
      (logic : Bytes) (expected_output : Option Json) (journal_data : Json)
      → (passes (check_output runtime logic expected_output journal_data) ≡ false)
        × ((check_output runtime logic expected_output journal_data ≡ none)
            ↔ HasOutput runtime logic expected_output journal_data)
  unfolding check_output expected_output_hash
  check_output_iff logic none journal_data = (refl, ((λ _. tt), λ _. refl))
  check_output_iff logic (some e) journal_data =
      let (fails, (sound, complete)) =
        check_output_hash_iff (expected_output_hash runtime logic e)
          (member "output_hash" journal_data) in
      let (to_wanted, from_wanted) =
        IsWanted-iff
          (λ w.
            member "output_hash" journal_data
            ≡ some (string (runtime.sha256_hex (runtime.utf8 (output_text runtime (some w))))))
          (try_extract_proxy_output runtime logic) e in
      (fails, ((λ h. to_wanted (sound h)), λ h. complete (from_wanted h)))
