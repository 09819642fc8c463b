-- ===== src/Trace/Clean.antt =====
-- internal/trace/trace.go: the payload after `redactValue`.
use safeops_agent.Prelude.{String, true, false, ◌≡◌, refl, ◌⊎◌, inl, inr, if◌then◌else◌, Bool-cases}
use safeops_agent.Json.{Json, Items, Fields, null, bool, num, str, arr, obj, nil, cons, end, field}
use safeops_agent.Trace.Redaction.{
  sensitive_key, redacted_text, redact_value, redact_items, redact_fields,
}

-- At any depth, a sensitive key stands before the placeholder, and a text under another key is one
-- that the redaction of texts has produced.
unfoldable mutual
  pub IsClean : (String → String) → Json → Type 0
  IsClean redact_text null = Unit
  IsClean redact_text (bool b) = Unit
  IsClean redact_text (num n) = Unit
  IsClean redact_text (str s) = (raw : String) × (s ≡ redact_text raw)
  IsClean redact_text (arr xs) = IsCleanItems redact_text xs
  IsClean redact_text (obj fs) = IsCleanFields redact_text fs

  pub IsCleanItems : (String → String) → Items → Type 0
  IsCleanItems redact_text nil = Unit
  IsCleanItems redact_text (cons v xs) = IsClean redact_text v × IsCleanItems redact_text xs

  pub IsCleanFields : (String → String) → Fields → Type 0
  IsCleanFields redact_text end = Unit
  IsCleanFields redact_text (field k v fs) =
      (((sensitive_key k ≡ true) × (v ≡ str redacted_text))
        ⊎ ((sensitive_key k ≡ false) × IsClean redact_text v))
      × IsCleanFields redact_text fs

redacted_field :
    (redact_text : String → String) (k : String) (v : Json)
    → IsClean redact_text v
    → ((sensitive_key k ≡ true)
        × ((if sensitive_key k then str redacted_text else v) ≡ str redacted_text))
      ⊎ ((sensitive_key k ≡ false)
          × IsClean redact_text (if sensitive_key k then str redacted_text else v))
redacted_field redact_text k v clean = elim (Bool-cases (sensitive_key k)) [
  | inl hit ↦ inl (hit, rw hit)
  | inr miss ↦ inr (miss, rw miss clean)
]

mutual
  unfolding IsClean redact_value

  IsClean-redact_value :
      (redact_text : String → String) (v : Json) → IsClean redact_text (redact_value redact_text v)
  IsClean-redact_value redact_text null = tt
  IsClean-redact_value redact_text (bool b) = tt
  IsClean-redact_value redact_text (num n) = tt
  IsClean-redact_value redact_text (str s) = (s, refl)
  IsClean-redact_value redact_text (arr xs) = IsCleanItems-redact_items redact_text xs
  IsClean-redact_value redact_text (obj fs) = IsCleanFields-redact_fields redact_text fs

  IsCleanItems-redact_items :
      (redact_text : String → String) (xs : Items)
      → IsCleanItems redact_text (redact_items redact_text xs)
  IsCleanItems-redact_items redact_text nil = tt
  IsCleanItems-redact_items redact_text (cons v xs) =
      (IsClean-redact_value redact_text v, IsCleanItems-redact_items redact_text xs)

  IsCleanFields-redact_fields :
      (redact_text : String → String) (fs : Fields)
      → IsCleanFields redact_text (redact_fields redact_text fs)
  IsCleanFields-redact_fields redact_text end = tt
  IsCleanFields-redact_fields redact_text (field k v fs) = (
    redacted_field redact_text k (redact_value redact_text v) (IsClean-redact_value redact_text v),
    IsCleanFields-redact_fields redact_text fs,
  )

-- What `redactValue` returns has no value left under a sensitive key, at any depth, and every text
-- elsewhere in it went through the redaction of texts.
pub redact_value-IsClean :
    (redact_text : String → String) (v : Json) → IsClean redact_text (redact_value redact_text v)
redact_value-IsClean redact_text v = IsClean-redact_value redact_text v
