-- ===== src/Validation/Scan.antt =====
-- src/validation.rs: the secret scan of a text field. The regular expressions, the keyhog scanner
-- and Unicode lower-casing are parameters.
use Prim.Native.Char.{Char, code}
use Prim.Native.String.{len}
use text.Mathlib.Text.{starts_with, find?}
use opencode_native_memory.Prelude.{
  ℕ, String, Bool, true, false, not, ◌&&◌, ◌||◌, Option, none, some, List, [], ◌∷◌, leb, ◌==◌,
  is_some, any, if◌then◌else◌,
}
use opencode_native_memory.Prelude.Text.{
  is_whitespace, is_empty, unquote_start, unquote_end, any_char, all_chars, to_ascii_lowercase,
  is_ascii_alphanumeric,
}
use opencode_native_memory.Prelude.Result.{Result, ok, err}

pub record ValidationPolicy : Type 0 where
  pub secret_scanning : Bool
  pub prompt_injection_scanning : Bool

abbrev pub default_policy : ValidationPolicy
default_policy = record { secret_scanning = true; prompt_injection_scanning = true }

pub record Scanners : Type 0 where
  pub to_lowercase : String → String
  -- `KNOWN_CREDENTIAL.is_match`
  pub is_known_credential : String → Bool
  -- the group `value` of `CREDENTIAL_ASSIGNMENT.captures`
  pub credential_value : String → Option String
  -- `keyhog_scanner_error().is_some()`, and a non-empty `scan`
  pub keyhog_failed : Bool
  pub keyhog_matches : String → Bool

pub data ScanError : Type 0 where
  private_key access_token credential_assignment scanner_unavailable detected_secret : ScanError

-- `str::contains` of a text
abbrev contains : String → String → Bool
contains s t = is_some (find? s t)

-- `str::lines`: a line ends at a line feed, and a carriage return before it is dropped.
first_is : ℕ → String → Bool
first_is n String.[] = false
first_is n (String.◌∷◌ c s) = code c == n

add_first : Char → List String → List String
add_first c [] = String.◌∷◌ c "" ∷ []
add_first c (l ∷ ls) = String.◌∷◌ c l ∷ ls

unfoldable pub lines : String → List String
unfolding first_is add_first
lines String.[] = []
lines (String.◌∷◌ c s) =
    let rest = lines s in
    if code c == 10
    then "" ∷ rest
    else if code c == 13 && first_is 10 s
    then rest
    else add_first c rest

-- `b"-_/+.=".contains(&byte)`
abbrev is_secret_mark : ℕ → Bool
is_secret_mark n = n == 45 || n == 95 || n == 47 || n == 43 || n == 46 || n == 61

abbrev markers : List String
markers =
    "redacted" ∷ "placeholder" ∷ "example" ∷ "sample" ∷ "dummy" ∷ "fake" ∷ "not-a-secret"
    ∷ "not_a_secret" ∷ "your_" ∷ "your-" ∷ "replace" ∷ "change-me" ∷ "changeme" ∷ "insert_"
    ∷ "insert-" ∷ []

unfoldable pub looks_like_secret_value : String → Bool
unfolding unquote_start unquote_end any_char all_chars to_ascii_lowercase is_whitespace any
looks_like_secret_value value =
    let unquoted = unquote_end (unquote_start value) in
    let lower = to_ascii_lowercase unquoted in
    if is_empty unquoted
      || any_char is_whitespace unquoted
      || starts_with unquoted "<"
      || starts_with unquoted "${"
      || any (contains lower) markers
    then false
    else leb 16 (len unquoted)
      && all_chars (λ n. is_ascii_alphanumeric n || is_secret_mark n) unquoted

-- the loop over the lines in `sensitive_content_reason`
has_assignment : Scanners → List String → Bool
unfolding looks_like_secret_value
has_assignment scanners [] = false
has_assignment scanners (line ∷ rest) =
    let later = has_assignment scanners rest in
    elim (scanners.credential_value line) [
      | none ↦ later
      | some value ↦ if looks_like_secret_value value then true else later
    ]

unfoldable pub sensitive_content_reason : Scanners → String → Option ScanError
unfolding has_assignment lines
sensitive_content_reason scanners content =
    let lower = scanners.to_lowercase content in
    if contains lower "-----begin " && contains lower "private key-----"
    then some private_key
    else if scanners.is_known_credential content
    then some access_token
    else if has_assignment scanners (lines content)
    then some credential_assignment
    else none

unfoldable pub scan_sensitive_with_policy :
    Scanners → ValidationPolicy → String → Result ScanError (Unit {0})
unfolding sensitive_content_reason
scan_sensitive_with_policy scanners policy value =
    if not policy.secret_scanning then ok tt else elim (sensitive_content_reason scanners value) [
      | some reason ↦ err reason
      | none ↦
          if scanners.keyhog_failed
          then err scanner_unavailable
          else if scanners.keyhog_matches value
          then err detected_secret
          else ok tt
    ]

-- Scanners that find nothing but the private keys and assignments that the code itself looks for.
abbrev pub quiet : Scanners
quiet = record {
  to_lowercase = λ s. s;
  is_known_credential = λ _. false;
  credential_value = λ _. none;
  keyhog_failed = false;
  keyhog_matches = λ _. false;
}
