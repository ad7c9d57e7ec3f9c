-- ===== src/Privacy.antt =====
-- libs/veripay_common/veripay_common/privacy.py: the redactor of personal data. Payloads are trees
-- of mappings with text keys, lists, and scalars; floats are of any kind. The regular expression
-- of sensitive keys, `str` and the hash are parameters.
pub mod Paths
pub mod Report
pub mod Values
pub mod Outline
use veri_pay.Common.{
  Bool, List, String, [], if◌then◌else◌, list_eq, nat_eq, option_eq, string_eq, suc, text_append,
  zero, ℕ, ℤ, ◌++◌, ◌==◌, ◌∷◌,
}
use veri_pay.Enums.Dispute.{dispute_reason_eq, dispute_status_eq}
use veri_pay.Enums.Payment.{
  channel_eq, payment_rail_eq, processing_path_eq, verification_outcome_eq,
}
use veri_pay.Enums.Risk.{decision_action_eq, risk_band_eq, risk_tier_eq}
use veri_pay.Enums.Token.{token_status_eq}
use veri_pay.Enums.Trust.{
  device_platform_eq, device_trust_state_eq, gpv_outcome_eq, sca_exemption_eq,
}

-- `null`, a text, an int, a boolean or a float of a payload.
pub data Scalar (R : Type 0) : Type 0 where
  null : Scalar R
  text : String → Scalar R
  whole : ℤ → Scalar R
  boolean : Bool → Scalar R
  fraction : R → Scalar R

-- Values; a list and a mapping are chains of their own.
mutual
  pub data Json (R : Type 0) : Type 0 where
    scalar : Scalar R → Json R
    array : Items R → Json R
    mapping : Fields R → Json R

  pub data Items (R : Type 0) : Type 0 where
    no_items : Items R
    item : Json R → Items R → Items R

  pub data Fields (R : Type 0) : Type 0 where
    no_fields : Fields R
    field : String → Json R → Fields R → Fields R

-- `DeterministicPiiRedactor`: its namespace, and what it calls. `is_sensitive` is the pattern's
-- `search` on a key, `str_value` is `str` on a value, `str_index` is `str` on a list index,
-- `hexdigest` is the hexadecimal SHA-256 of a text.
pub record Redactor (R : Type 0) : Type 0 where
  pub namespace : String
  pub is_sensitive : String → Bool
  pub str_value : Json R → String
  pub str_index : ℕ → String
  pub hexdigest : String → String

-- `digest[:n]`
unfoldable pub prefix : ℕ → String → String
prefix zero s = ""
prefix (suc n) String.[] = ""
prefix (suc n) (String.◌∷◌ c s) = String.◌∷◌ c (prefix n s)

module _ {R : Type 0} (r : Redactor R) where
  unfoldable pub tokenize : Json R → String
  unfolding prefix
  tokenize value =
      text_append "tok_"
        (prefix 20 (r.hexdigest (text_append r.namespace (text_append ":" (r.str_value value)))))

  -- `f"{path}.{key_text}" if path else key_text`
  abbrev pub child_path : String → String → String
  child_path path key = if path == "" then key else text_append path (text_append "." key)

  -- `f"{path}[{index}]"`
  abbrev pub index_path : String → ℕ → String
  index_path path index = text_append path (text_append "[" (text_append (r.str_index index) "]"))

  -- The value and the list `redacted` after the walk. The keys of a mapping differ, so each
  -- `result[key_text] = ...` appends.
  unfoldable mutual
    unfolding tokenize

    pub walk : Json R → String → List String → Json R × List String
    walk (scalar s) path redacted = (scalar s, redacted)
    walk (array xs) path redacted = let w = walk_items xs path 0 redacted in (array w.0, w.1)
    walk (mapping fs) path redacted = let w = walk_fields fs path redacted in (mapping w.0, w.1)

    pub walk_items : Items R → String → ℕ → List String → Items R × List String
    walk_items no_items path index redacted = (no_items, redacted)
    walk_items (item child xs) path index redacted =
        let first = walk child (index_path path index) redacted in
        let rest = walk_items xs path (suc index) first.1 in (item first.0 rest.0, rest.1)

    pub walk_fields : Fields R → String → List String → Fields R × List String
    walk_fields no_fields path redacted = (no_fields, redacted)
    walk_fields (field key child fs) path redacted =
        let inner = walk child (child_path path key) redacted in
        let first =
          if r.is_sensitive key
          then (scalar (text (tokenize child)), redacted ++ child_path path key ∷ [])
          else inner in
        let rest = walk_fields fs path first.1 in (field key first.0 rest.0, rest.1)

  -- `redact`, with the payload and the redacted fields of its result.
  unfoldable pub redact : Fields R → Fields R × List String
  redact payload = walk_fields payload "" []
