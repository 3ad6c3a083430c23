-- ===== src/Taxonomy/Defs.antt =====
-- src/taxonomy.rs: the memory taxonomy, its families, and the retrieval profiles with their weights.
use opencode_native_memory.Prelude.{String}
use opencode_native_memory.Float.{F32, scaled}

pub data MemoryTaxonomy : Type 0 where
  task_attempt : MemoryTaxonomy
  tool_call : MemoryTaxonomy
  session_summary : MemoryTaxonomy
  architecture_fact : MemoryTaxonomy
  codebase_fact : MemoryTaxonomy
  user_fact : MemoryTaxonomy
  user_identity : MemoryTaxonomy
  user_behavior : MemoryTaxonomy
  user_preference : MemoryTaxonomy
  user_goal : MemoryTaxonomy
  user_relationship : MemoryTaxonomy
  fix_pattern : MemoryTaxonomy
  code_template : MemoryTaxonomy
  tool_heuristic : MemoryTaxonomy
  code_style : MemoryTaxonomy
  library_pref : MemoryTaxonomy
  workflow_pref : MemoryTaxonomy
  decision : MemoryTaxonomy
  team_convention : MemoryTaxonomy
  project_standard : MemoryTaxonomy

pub data MemoryFamily : Type 0 where
  semantic decision team procedural preference episodic : MemoryFamily

pub data RetrievalProfile : Type 0 where
  semantic procedural preference episodic : RetrievalProfile

-- `MemoryTaxonomy::as_str`
unfoldable pub as_str : MemoryTaxonomy → String
as_str MemoryTaxonomy.task_attempt = "task_attempt"
as_str MemoryTaxonomy.tool_call = "tool_call"
as_str MemoryTaxonomy.session_summary = "session_summary"
as_str MemoryTaxonomy.architecture_fact = "architecture_fact"
as_str MemoryTaxonomy.codebase_fact = "codebase_fact"
as_str MemoryTaxonomy.user_fact = "user_fact"
as_str MemoryTaxonomy.user_identity = "user_identity"
as_str MemoryTaxonomy.user_behavior = "user_behavior"
as_str MemoryTaxonomy.user_preference = "user_preference"
as_str MemoryTaxonomy.user_goal = "user_goal"
as_str MemoryTaxonomy.user_relationship = "user_relationship"
as_str MemoryTaxonomy.fix_pattern = "fix_pattern"
as_str MemoryTaxonomy.code_template = "code_template"
as_str MemoryTaxonomy.tool_heuristic = "tool_heuristic"
as_str MemoryTaxonomy.code_style = "code_style"
as_str MemoryTaxonomy.library_pref = "library_pref"
as_str MemoryTaxonomy.workflow_pref = "workflow_pref"
as_str MemoryTaxonomy.decision = "decision"
as_str MemoryTaxonomy.team_convention = "team_convention"
as_str MemoryTaxonomy.project_standard = "project_standard"

-- `MemoryTaxonomy::family`
unfoldable pub family : MemoryTaxonomy → MemoryFamily
family MemoryTaxonomy.task_attempt = MemoryFamily.episodic
family MemoryTaxonomy.tool_call = MemoryFamily.episodic
family MemoryTaxonomy.session_summary = MemoryFamily.episodic
family MemoryTaxonomy.architecture_fact = MemoryFamily.semantic
family MemoryTaxonomy.codebase_fact = MemoryFamily.semantic
family MemoryTaxonomy.user_fact = MemoryFamily.semantic
family MemoryTaxonomy.user_identity = MemoryFamily.semantic
family MemoryTaxonomy.user_behavior = MemoryFamily.semantic
family MemoryTaxonomy.user_preference = MemoryFamily.preference
family MemoryTaxonomy.user_goal = MemoryFamily.semantic
family MemoryTaxonomy.user_relationship = MemoryFamily.semantic
family MemoryTaxonomy.fix_pattern = MemoryFamily.procedural
family MemoryTaxonomy.code_template = MemoryFamily.procedural
family MemoryTaxonomy.tool_heuristic = MemoryFamily.procedural
family MemoryTaxonomy.code_style = MemoryFamily.preference
family MemoryTaxonomy.library_pref = MemoryFamily.preference
family MemoryTaxonomy.workflow_pref = MemoryFamily.preference
family MemoryTaxonomy.decision = MemoryFamily.decision
family MemoryTaxonomy.team_convention = MemoryFamily.team
family MemoryTaxonomy.project_standard = MemoryFamily.decision

-- `MemoryFamily::retrieval_profile`
unfoldable pub family_profile : MemoryFamily → RetrievalProfile
family_profile MemoryFamily.semantic = RetrievalProfile.semantic
family_profile MemoryFamily.decision = RetrievalProfile.semantic
family_profile MemoryFamily.team = RetrievalProfile.semantic
family_profile MemoryFamily.procedural = RetrievalProfile.procedural
family_profile MemoryFamily.preference = RetrievalProfile.preference
family_profile MemoryFamily.episodic = RetrievalProfile.episodic

-- `MemoryTaxonomy::retrieval_profile`
unfoldable pub retrieval_profile : MemoryTaxonomy → RetrievalProfile
unfolding family family_profile
retrieval_profile t = family_profile (family t)

-- `RetrievalProfile::weights`: (dense, reciprocal_rank, lexical, channel_agreement), each literal
-- the `f32` nearest to the decimal in the source.
unfoldable pub weights : RetrievalProfile → F32 × F32 × F32 × F32
weights RetrievalProfile.semantic =
    (scaled 7549747 125, scaled 1 147, scaled 13421773 123, scaled 13421773 122)
weights RetrievalProfile.episodic =
    (scaled 7549747 125, scaled 1 147, scaled 13421773 123, scaled 13421773 122)
weights RetrievalProfile.procedural =
    (scaled 11744051 124, scaled 1 147, scaled 5033165 125, scaled 13421773 122)
weights RetrievalProfile.preference =
    (scaled 1 147, scaled 13421773 123, scaled 7549747 125, scaled 13421773 122)
