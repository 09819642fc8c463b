-- ===== src/Trace/Redaction.antt =====
-- internal/trace/trace.go: what is taken out of a payload before it is recorded.
use Prim.Native.Char.{code}
use safeops_agent.Prelude.{
  String, Bool, ◌||◌, List, [], ◌∷◌, any, eqb, ◌==◌, if◌then◌else◌, to_lower, has_prefix,
}
use safeops_agent.Json.{Json, Items, Fields, null, bool, num, str, arr, obj, nil, cons, end, field}

-- The replacer of `sensitiveKey` takes away underscores, dashes, dots and spaces.
unfoldable pub strip_separators : String → String
strip_separators String.[] = ""
strip_separators (String.◌∷◌ c s) =
    let rest = strip_separators s in
    if eqb (code c) 95 || eqb (code c) 45 || eqb (code c) 46 || eqb (code c) 32
    then rest
    else String.◌∷◌ c rest

-- `strings.Contains`
unfoldable pub contains_text : String → String → Bool
unfolding has_prefix
contains_text String.[] word = has_prefix "" word
contains_text (String.◌∷◌ c s) word = has_prefix (String.◌∷◌ c s) word || contains_text s word

-- `strings.HasSuffix`
unfoldable pub has_suffix : String → String → Bool
unfolding ◌==◌
has_suffix String.[] word = "" == word
has_suffix (String.◌∷◌ c s) word = String.◌∷◌ c s == word || has_suffix s word

abbrev pub sensitive_names : List String
sensitive_names =
    "token" ∷ "accesstoken" ∷ "refreshtoken" ∷ "idtoken" ∷ "authorization" ∷ "cookie" ∷ "setcookie"
    ∷ "apikey" ∷ "password" ∷ "passwd" ∷ "secret" ∷ "clientsecret" ∷ "chainofthought"
    ∷ "hiddenreasoning" ∷ "reasoningcontent" ∷ "cot" ∷ []

-- `sensitiveKey`
unfoldable pub sensitive_key : String → Bool
unfolding strip_separators contains_text has_suffix to_lower ◌==◌
sensitive_key key =
    let normalized = strip_separators (to_lower key) in
    any (λ w. normalized == w) sensitive_names
    || contains_text normalized "password"
    || contains_text normalized "secret"
    || has_suffix normalized "token"

abbrev pub redacted_text : String
redacted_text = "[REDACTED]"

-- `redactValue`. The three regular expressions over a text are the parameter `redact_text`.
unfoldable mutual
  pub redact_value : (String → String) → Json → Json
  redact_value redact_text null = null
  redact_value redact_text (bool b) = bool b
  redact_value redact_text (num n) = num n
  redact_value redact_text (str s) = str (redact_text s)
  redact_value redact_text (arr xs) = arr (redact_items redact_text xs)
  redact_value redact_text (obj fs) = obj (redact_fields redact_text fs)

  pub redact_items : (String → String) → Items → Items
  redact_items redact_text nil = nil
  redact_items redact_text (cons v xs) =
      cons (redact_value redact_text v) (redact_items redact_text xs)

  pub redact_fields : (String → String) → Fields → Fields
  redact_fields redact_text end = end
  redact_fields redact_text (field k v fs) =
      let kept = redact_value redact_text v in
      field k (if sensitive_key k then str redacted_text else kept) (redact_fields redact_text fs)
