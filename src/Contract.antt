-- ===== src/Contract.antt =====
-- src/contract.rs: the enumerations of the wire contract, their wire names, and the update request.
use opencode_native_memory.Prelude.{ℕ, Bool, Option, List, String, str_eq, if◌then◌else◌}
use opencode_native_memory.Prelude.Int.{ℤ}
use opencode_native_memory.Prelude.Result.{Result, ok, err}
use opencode_native_memory.Float.{F32}
use opencode_native_memory.Taxonomy.Defs.{MemoryTaxonomy}

pub data MemoryKind : Type 0 where
  decision preference fact pattern gotcha summary : MemoryKind

pub data MemoryScope : Type 0 where
  session agent project repository : MemoryScope

pub data MemoryOrigin : Type 0 where
  manual auto_compaction shared_markdown ingested_document legacy : MemoryOrigin

pub data DeleteReason : Type 0 where
  obsolete incorrect user_deleted : DeleteReason

pub data LockAction : Type 0 where
  lock unlock : LockAction

pub data RetrievalMode : Type 0 where
  lexical dense hybrid : RetrievalMode

pub data FeedbackEvent : Type 0 where
  injected used ignored error : FeedbackEvent

pub record CodeAnchor : Type 0 where
  pub path : String
  pub sha256 : String
  pub git_sha : Option String

-- u64 counters
pub record FeedbackStats : Type 0 where
  pub injected_count : ℕ
  pub used_count : ℕ
  pub ignored_count : ℕ
  pub error_count : ℕ

pub data ParseError : Type 0 where
  unknown_kind : String → ParseError
  unknown_taxonomy : String → ParseError

-- `MemoryKind::as_str` and `MemoryKind::parse`
unfoldable pub kind_as_str : MemoryKind → String
kind_as_str decision = "decision"
kind_as_str preference = "preference"
kind_as_str fact = "fact"
kind_as_str pattern = "pattern"
kind_as_str gotcha = "gotcha"
kind_as_str summary = "summary"

unfoldable pub parse_kind : String → Result ParseError MemoryKind
parse_kind value =
    if str_eq value "decision"
    then ok MemoryKind.decision
    else if str_eq value "preference"
    then ok MemoryKind.preference
    else if str_eq value "fact"
    then ok MemoryKind.fact
    else if str_eq value "pattern"
    then ok MemoryKind.pattern
    else if str_eq value "gotcha"
    then ok MemoryKind.gotcha
    else if str_eq value "summary"
    then ok MemoryKind.summary
    else err (unknown_kind value)

-- `MemoryScope::as_str` and `MemoryScope::precedence`
unfoldable pub scope_as_str : MemoryScope → String
scope_as_str session = "session"
scope_as_str agent = "agent"
scope_as_str project = "project"
scope_as_str repository = "repository"

unfoldable pub precedence : MemoryScope → ℕ
precedence session = 4
precedence agent = 3
precedence project = 2
precedence repository = 1

unfoldable pub score_version : RetrievalMode → String
score_version lexical = "lexical_v1_taxonomy"
score_version dense = "dense_v1_taxonomy"
score_version hybrid = "hybrid_v3_taxonomy"

unfoldable pub graph_score_version : RetrievalMode → String
graph_score_version lexical = "lexical_v1_taxonomy+graph_rrf_v1"
graph_score_version dense = "dense_v1_taxonomy+graph_rrf_v1"
graph_score_version hybrid = "hybrid_v3_taxonomy+graph_rrf_v1"

pub record UpdateRequest : Type 0 where
  pub id : String
  pub expected_updated_at_ms : Option ℤ
  pub content : Option String
  pub title : Option String
  pub kind : Option MemoryKind
  pub importance : Option F32
  pub tags : Option (List String)
  pub scope : Option MemoryScope
  pub scope_key : Option String
  pub expires_in_days : Option ℕ
  pub clear_expiry : Bool
  pub code_paths : Option (List String)
  pub pinned : Option Bool
  pub lock_action : Option LockAction
  pub lock_reason : Option String
  pub taxonomy : Option MemoryTaxonomy
  pub confidence : Option F32
  pub conflict_with : Option (List String)
  pub session_scope_key : Option String
  pub agent_scope_key : Option String
