-- ===== src/Validation/Injection.antt =====
-- src/validation.rs: the search of a text for instructions to an agent. The regular expressions, the
-- two classifiers and the Unicode tables are parameters.
use Prim.Native.Char.{code}
use Prim.Native.String.{◌++◌}
use text.Mathlib.Text.{find?}
use opencode_native_memory.Prelude.{
  ℕ, String, Bool, false, not, ◌||◌, List, [], ◌∷◌, is_some, any, if◌then◌else◌,
}
use opencode_native_memory.Prelude.Text.{split_whitespace, join}
use opencode_native_memory.Validation.Scan.{ValidationPolicy}

pub record Classifiers : Type 0 where
  -- whether `RegexInjectionScanner` decides to block a text
  pub is_blocked : String → Bool
  -- `onnx_instruction_injection(...).unwrap_or(false)`
  pub is_classified : String → Bool
  -- `str::to_lowercase`, and `MARKDOWN_CODE.replace_all(..., " ")`
  pub to_lowercase : String → String
  pub mask_code : String → String
  -- `char::is_alphanumeric`
  pub is_alphanumeric : ℕ → Bool

abbrev has : String → String → Bool
has s t = is_some (find? s t)

abbrev protocol_markers : List String
protocol_markers = "<memory-policy" ∷ "<project-memory" ∷ "<system" ∷ "<developer" ∷ []

abbrev instruction_markers : List String
instruction_markers =
    "ignore previous instruction" ∷ "ignore all instruction" ∷ "disregard previous instruction"
    ∷ "reveal the system prompt" ∷ "reveal the developer message" ∷ "follow these instruction"
    ∷ "you must execute" ∷ "execute this tool" ∷ "call this tool" ∷ "act as system" ∷ []

unfoldable pub blank_punctuation : (ℕ → Bool) → String → String
blank_punctuation is_alphanumeric String.[] = String.[]
blank_punctuation is_alphanumeric (String.◌∷◌ c s) =
    let rest = blank_punctuation is_alphanumeric s in
    if is_alphanumeric (code c) then String.◌∷◌ c rest else " " ++ rest

unfoldable pub contains_instruction_injection_with_policy :
    Classifiers → ValidationPolicy → String → Bool
unfolding blank_punctuation any split_whitespace join
contains_instruction_injection_with_policy c policy content =
    let lower = c.mask_code (c.to_lowercase content) in
    let normalized =
      join " " (split_whitespace (blank_punctuation c.is_alphanumeric (c.to_lowercase content))) in
    if not policy.prompt_injection_scanning
    then false
    else c.is_blocked content
      || (c.is_classified content
          || (any (has lower) protocol_markers || any (has normalized) instruction_markers))
