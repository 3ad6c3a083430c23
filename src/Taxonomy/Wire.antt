-- ===== src/Taxonomy/Wire.antt =====
-- src/taxonomy.rs: wire names round-trip, and what inference can and cannot return.
use opencode_native_memory.Prelude.{
  String, Bool, ◌≡◌, ◌↔◌, ◌⊎◌, inl, inr, ap, ◌∙◌, refl, arith, eq_iff, str_eq, Bool-cases,
  if◌then◌else◌,
}
use opencode_native_memory.Prelude.Result.{Result, ok}
use opencode_native_memory.Contract.{MemoryKind, MemoryScope, ParseError}
use opencode_native_memory.Taxonomy.Defs.{MemoryTaxonomy, as_str}
use opencode_native_memory.Taxonomy.Infer.{parse, infer_anchored}

parse-as_str : (t : MemoryTaxonomy) → parse (as_str t) ≡ ok t
unfolding parse as_str
parse-as_str MemoryTaxonomy.task_attempt = refl
parse-as_str MemoryTaxonomy.tool_call = refl
parse-as_str MemoryTaxonomy.session_summary = refl
parse-as_str MemoryTaxonomy.architecture_fact = refl
parse-as_str MemoryTaxonomy.codebase_fact = refl
parse-as_str MemoryTaxonomy.user_fact = refl
parse-as_str MemoryTaxonomy.user_identity = refl
parse-as_str MemoryTaxonomy.user_behavior = refl
parse-as_str MemoryTaxonomy.user_preference = refl
parse-as_str MemoryTaxonomy.user_goal = refl
parse-as_str MemoryTaxonomy.user_relationship = refl
parse-as_str MemoryTaxonomy.fix_pattern = refl
parse-as_str MemoryTaxonomy.code_template = refl
parse-as_str MemoryTaxonomy.tool_heuristic = refl
parse-as_str MemoryTaxonomy.code_style = refl
parse-as_str MemoryTaxonomy.library_pref = refl
parse-as_str MemoryTaxonomy.workflow_pref = refl
parse-as_str MemoryTaxonomy.decision = refl
parse-as_str MemoryTaxonomy.team_convention = refl
parse-as_str MemoryTaxonomy.project_standard = refl

-- One arm of the chain of comparisons in `parse`.
arm :
    (value : String) (t u : MemoryTaxonomy) {rest : Result ParseError MemoryTaxonomy}
    → (rest ≡ ok u → value ≡ as_str u)
    → (if str_eq value (as_str t) then ok t else rest) ≡ ok u
    → value ≡ as_str u
arm value t u other h = elim (Bool-cases (str_eq value (as_str t))) [
  | inl same ↦ (eq_iff value (as_str t)).0 same ∙ ap as_str (ground (arith, same))
  | inr differs ↦ other (ground (arith, differs))
]

as_str-parse : (value : String) (t : MemoryTaxonomy) → parse value ≡ ok t → value ≡ as_str t
unfolding parse as_str
as_str-parse value u = arm value MemoryTaxonomy.task_attempt u (
    arm value MemoryTaxonomy.tool_call u (
      arm value MemoryTaxonomy.session_summary u (
        arm value MemoryTaxonomy.architecture_fact u (
          arm value MemoryTaxonomy.codebase_fact u (
            arm value MemoryTaxonomy.user_fact u (
              arm value MemoryTaxonomy.user_identity u (
                arm value MemoryTaxonomy.user_behavior u (
                  arm value MemoryTaxonomy.user_preference u (
                    arm value MemoryTaxonomy.user_goal u (
                      arm value MemoryTaxonomy.user_relationship u (
                        arm value MemoryTaxonomy.fix_pattern u (
                          arm value MemoryTaxonomy.code_template u (
                            arm value MemoryTaxonomy.tool_heuristic u (
                              arm value MemoryTaxonomy.code_style u (
                                arm value MemoryTaxonomy.library_pref u (
                                  arm value MemoryTaxonomy.workflow_pref u (
                                    arm value MemoryTaxonomy.decision u (
                                      arm value MemoryTaxonomy.team_convention u (
                                        arm value MemoryTaxonomy.project_standard u
                                          ((λ h. cc)))))))))))))))))))))

-- The only names that `parse` accepts are the wire names, each for its own variant.
pub parse_iff : (value : String) (t : MemoryTaxonomy) → (parse value ≡ ok t) ↔ (value ≡ as_str t)
parse_iff value t = (as_str-parse value t, λ e. rw e (parse-as_str t))

abbrev pub IsShared : MemoryTaxonomy → Type 0
IsShared t = (t ≡ MemoryTaxonomy.project_standard) ⊎ (t ≡ MemoryTaxonomy.team_convention)

-- Inference gives a team convention or a project standard exactly in repository scope.
pub infer-IsShared_iff :
    (kind : MemoryKind) (scope : MemoryScope) (anchored : Bool)
    → IsShared (infer_anchored kind scope anchored) ↔ (scope ≡ MemoryScope.repository)
unfolding infer_anchored
infer-IsShared_iff kind MemoryScope.session anchored = ground arith
infer-IsShared_iff kind MemoryScope.agent anchored = ground arith
infer-IsShared_iff kind MemoryScope.project anchored = ground arith
infer-IsShared_iff kind MemoryScope.repository anchored = ground arith
