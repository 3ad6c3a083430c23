-- ===== src/Taxonomy/Infer.antt =====
-- src/taxonomy.rs: parsing a wire name, and the inference of a taxonomy from kind, scope and anchors.
use opencode_native_memory.Prelude.{
  String, Bool, true, false, not, List, [], ◌∷◌, str_eq, if◌then◌else◌,
}
use opencode_native_memory.Prelude.Result.{Result, ok, err}
use opencode_native_memory.Contract.{
  MemoryKind, MemoryScope, CodeAnchor, ParseError, unknown_taxonomy,
}
use opencode_native_memory.Taxonomy.Defs.{MemoryTaxonomy}

-- `MemoryTaxonomy::parse`
unfoldable pub parse : String → Result ParseError MemoryTaxonomy
parse value =
    if str_eq value "task_attempt"
    then ok MemoryTaxonomy.task_attempt
    else if str_eq value "tool_call"
    then ok MemoryTaxonomy.tool_call
    else if str_eq value "session_summary"
    then ok MemoryTaxonomy.session_summary
    else if str_eq value "architecture_fact"
    then ok MemoryTaxonomy.architecture_fact
    else if str_eq value "codebase_fact"
    then ok MemoryTaxonomy.codebase_fact
    else if str_eq value "user_fact"
    then ok MemoryTaxonomy.user_fact
    else if str_eq value "user_identity"
    then ok MemoryTaxonomy.user_identity
    else if str_eq value "user_behavior"
    then ok MemoryTaxonomy.user_behavior
    else if str_eq value "user_preference"
    then ok MemoryTaxonomy.user_preference
    else if str_eq value "user_goal"
    then ok MemoryTaxonomy.user_goal
    else if str_eq value "user_relationship"
    then ok MemoryTaxonomy.user_relationship
    else if str_eq value "fix_pattern"
    then ok MemoryTaxonomy.fix_pattern
    else if str_eq value "code_template"
    then ok MemoryTaxonomy.code_template
    else if str_eq value "tool_heuristic"
    then ok MemoryTaxonomy.tool_heuristic
    else if str_eq value "code_style"
    then ok MemoryTaxonomy.code_style
    else if str_eq value "library_pref"
    then ok MemoryTaxonomy.library_pref
    else if str_eq value "workflow_pref"
    then ok MemoryTaxonomy.workflow_pref
    else if str_eq value "decision"
    then ok MemoryTaxonomy.decision
    else if str_eq value "team_convention"
    then ok MemoryTaxonomy.team_convention
    else if str_eq value "project_standard"
    then ok MemoryTaxonomy.project_standard
    else err (unknown_taxonomy value)

abbrev pub default : MemoryTaxonomy
default = MemoryTaxonomy.session_summary

-- the arms of `infer_anchored` for a scope other than `Repository`
infer_kind : MemoryKind → Bool → MemoryTaxonomy
infer_kind MemoryKind.decision anchored = MemoryTaxonomy.decision
infer_kind MemoryKind.preference anchored = MemoryTaxonomy.workflow_pref
infer_kind MemoryKind.fact anchored =
    if anchored then MemoryTaxonomy.codebase_fact else MemoryTaxonomy.architecture_fact
infer_kind MemoryKind.pattern anchored =
    if anchored then MemoryTaxonomy.code_template else MemoryTaxonomy.fix_pattern
infer_kind MemoryKind.gotcha anchored = MemoryTaxonomy.fix_pattern
infer_kind MemoryKind.summary anchored = MemoryTaxonomy.session_summary

-- the arms for scope `Repository`
infer_repository : MemoryKind → MemoryTaxonomy
infer_repository MemoryKind.decision = MemoryTaxonomy.project_standard
infer_repository MemoryKind.fact = MemoryTaxonomy.project_standard
infer_repository _ = MemoryTaxonomy.team_convention

unfoldable pub infer_anchored : MemoryKind → MemoryScope → Bool → MemoryTaxonomy
unfolding infer_kind infer_repository
infer_anchored kind MemoryScope.repository anchored = infer_repository kind
infer_anchored kind MemoryScope.session anchored = infer_kind kind anchored
infer_anchored kind MemoryScope.agent anchored = infer_kind kind anchored
infer_anchored kind MemoryScope.project anchored = infer_kind kind anchored

abbrev no_anchors : List CodeAnchor → Bool
no_anchors [] = true
no_anchors (_ ∷ _) = false

unfoldable pub infer : MemoryKind → MemoryScope → List CodeAnchor → MemoryTaxonomy
unfolding infer_anchored
infer kind scope code_anchors = infer_anchored kind scope (not (no_anchors code_anchors))
