-- ===== src/Graph/Validate/Fields.antt =====
-- src/graph/mod.rs: the checks of single values and of evidence, the limits and the errors.
use Prim.Native.String.{count}
use opencode_native_memory.Prelude.{
  ℕ, ◌*◌, ◌^◌, Bool, true, false, not, ◌&&◌, ◌||◌, Option, none, some, List, [], ◌∷◌, String,
  str_eq, leb, ltb, ◌==◌, is_none, is_none_or, is_some_and,
}
use opencode_native_memory.Prelude.Int.{pos}
use opencode_native_memory.Prelude.Result.{Result, ensure, ◌>>◌}
use opencode_native_memory.Prelude.Text.{is_empty, is_blank, byte_length, any_char, all_chars}
use opencode_native_memory.Float.{F64, is_finite64, within64}
use opencode_native_memory.Graph.Defs.{GraphScopeKind, GraphScope, GraphEvidence, GraphProvider}

abbrev pub max_graph_units : ℕ
max_graph_units = 64

abbrev pub max_graph_text_bytes : ℕ
max_graph_text_bytes = 32 * 1024

abbrev pub max_graph_total_text_bytes : ℕ
max_graph_total_text_bytes = 256 * 1024

abbrev pub max_graph_jobs : ℕ
max_graph_jobs = 1024

abbrev pub max_graph_job_attempts : ℕ
max_graph_job_attempts = 5

abbrev pub min_graph_job_lease_ms : ℕ
min_graph_job_lease_ms = 5000

abbrev pub max_graph_job_lease_ms : ℕ
max_graph_job_lease_ms = 5 * 60000

pub data GraphError : Type 0 where
  invalid_run_id invalid_provider invalid_token invalid_lease invalid_job_error invalid_scope :
      GraphError
  invalid_embedding invalid_name invalid_confidence invalid_evidence unsupported_version :
      GraphError
  too_many key_mismatch blank_name invalid_fact missing_reference crosses_scopes : GraphError
  invalid_observation invalid_relation invalid_run invalid_job job_lease job_fence : GraphError
  invalid_limit id_reused job_not_found not_active stale_token lease_expired run_id_changed :
      GraphError
  outcome_changed material_changed receipt_missing unexpected_error error_required : GraphError
  state_too_large pending_too_large : GraphError
  upsert_failed remote_ineligible rdf_failed pending_failed commit_failed cleanup_failed :
      GraphError

-- `char::is_control`, the code points of the Unicode category Cc
abbrev pub is_control : ℕ → Bool
is_control c = leb c 0x1f || (leb 0x7f c && leb c 0x9f)

abbrev is_ascii_hexdigit : ℕ → Bool
is_ascii_hexdigit c =
    (leb 0x30 c && leb c 0x39) || (leb 0x41 c && leb c 0x46) || (leb 0x61 c && leb c 0x66)

unfoldable pub validate_run_id : String → Result GraphError (Unit {0})
validate_run_id value = do
  ensure (leb 1 (byte_length value) && leb (byte_length value) 128) invalid_run_id
  ensure (not (any_char is_control value)) invalid_run_id

unfoldable pub validate_job_id : String → Result GraphError (Unit {0})
unfolding validate_run_id
validate_job_id value = validate_run_id value

unfoldable pub validate_job_token : String → Result GraphError (Unit {0})
validate_job_token value =
    ensure (byte_length value == 64 && all_chars is_ascii_hexdigit value) invalid_token

unfoldable pub validate_job_lease : ℕ → Result GraphError (Unit {0})
validate_job_lease value =
    ensure (leb min_graph_job_lease_ms value && leb value max_graph_job_lease_ms) invalid_lease

unfoldable pub validate_job_error : String → Bool → Result GraphError (Unit {0})
validate_job_error value allow_empty =
    ensure
      ((allow_empty || not (is_blank value))
        && (leb (count value) 2048 && not (any_char is_control value)))
      invalid_job_error

abbrev is_identity : String → Bool
is_identity value = not (is_blank value) && leb (count value) 512

unfoldable pub validate_provider : GraphProvider → Result GraphError (Unit {0})
validate_provider p = do
  ensure (is_identity p.provider_id) invalid_provider
  ensure (is_identity p.model_id) invalid_provider
  ensure (is_identity p.extractor_version) invalid_provider
  ensure (is_identity p.prompt_version) invalid_provider
  ensure (is_identity p.schema_version) invalid_provider
  ensure (is_none_or p.variant is_identity) invalid_provider

unfoldable pub validate_name : String → Result GraphError (Unit {0})
validate_name value = do
  ensure (is_identity value) invalid_name
  ensure (not (any_char is_control value)) invalid_name

unfoldable pub validate_confidence : F64 → Result GraphError (Unit {0})
validate_confidence value =
    ensure (is_finite64 value && within64 (pos 0) (pos (2 ^ 1074)) value) invalid_confidence

unfoldable pub validate_scope : GraphScope → Result GraphError (Unit {0})
validate_scope s = do
  ensure (not (is_empty s.project_id)) invalid_scope
  elim s.kind [
    | GraphScopeKind.project ↦ ensure (is_none s.scope_key) invalid_scope
    | GraphScopeKind.repository ↦ ensure (is_none s.scope_key) invalid_scope
    | GraphScopeKind.agent ↦ ensure (is_some_and s.scope_key (λ k. not (is_empty k))) invalid_scope
    | GraphScopeKind.session ↦
        ensure (is_some_and s.scope_key (λ k. not (is_empty k))) invalid_scope
  ]

unfoldable pub validate_persisted_evidence : GraphEvidence → Result GraphError (Unit {0})
unfolding validate_scope
validate_persisted_evidence e = do
  ensure
      (not (is_empty e.source_memory_id)
        && (not (is_empty e.source_unit_id)
            && (not (is_empty e.content_hash)
                && (not (is_empty e.extraction_revision) && not (is_empty e.quote)))))
      invalid_evidence
  ensure (leb (count e.quote) 1024) invalid_evidence
  validate_scope e.scope

same_kind : GraphScopeKind → GraphScopeKind → Bool
same_kind GraphScopeKind.project GraphScopeKind.project = true
same_kind GraphScopeKind.repository GraphScopeKind.repository = true
same_kind GraphScopeKind.agent GraphScopeKind.agent = true
same_kind GraphScopeKind.session GraphScopeKind.session = true
same_kind _ _ = false

same_key : Option String → Option String → Bool
same_key none none = true
same_key (some a) (some b) = str_eq a b
same_key none (some b) = false
same_key (some a) none = false

-- the derived `==` of scopes
unfoldable pub same_scope : GraphScope → GraphScope → Bool
unfolding same_kind same_key
same_scope a b =
    str_eq a.project_id b.project_id
    && (same_kind a.kind b.kind && same_key a.scope_key b.scope_key)

abbrev pub is_nil {ℓ} : {A : Type ℓ} → List A → Bool
is_nil [] = true
is_nil (_ ∷ _) = false

-- `start.zip(end).is_none_or(|(start, end)| start <= end)`
abbrev pub in_order : Option ℕ → Option ℕ → Bool
in_order none end = true
in_order (some s) none = true
in_order (some s) (some e) = leb s e

abbrev pub is_later : Option ℕ → Option ℕ → Bool
is_later none valid = true
is_later (some invalid) none = true
is_later (some invalid) (some valid) = ltb valid invalid
