-- ===== src/Examples/Graph/Upserts.antt =====
-- Upserts of small batches into the knowledge graph.
use opencode_native_memory.Prelude.{
  ◌+◌, ◌&&◌, ◌||◌, str_eq, Bool, true, false, ◌≡◌, refl, none, some, [], ◌∷◌, String, length, any,
  all,
}
use opencode_native_memory.Prelude.Int.{pos}
use opencode_native_memory.Prelude.Map.{contains_key, get}
use opencode_native_memory.Prelude.Result.{ok}
use opencode_native_memory.Prelude.Text.{byte_length, trim, any_char}
use opencode_native_memory.State.Ids.{distinct}
use opencode_native_memory.Float.{finite64, within64}
use opencode_native_memory.Graph.Defs.{
  GraphEvidence, GraphSource, GraphState, GraphMention, DerivedFact, GraphObservation,
  GraphRelation,
}
use opencode_native_memory.Graph.Upsert.{
  Services, GraphEvidenceInput, GraphEntityInput, GraphRelationInput, GraphFactInput,
  GraphObservationInput,
}
use opencode_native_memory.Graph.Upsert.Apply.{
  Material, GraphUpsertOutcome, replayed, merge_mentions,
}
use opencode_native_memory.Graph.Upsert.Passes.{first_run, apply_upsert}
use opencode_native_memory.Graph.Jobs.{Finish}
use opencode_native_memory.Graph.Jobs.Completion.{completed_job, settle}
use opencode_native_memory.Graph.Jobs.Fencing.{graph_parts}
use opencode_native_memory.Graph.Upsert.Settles.{settle-apply_upsert}
use opencode_native_memory.Examples.Graph.Jobs.{report, finished_job}
use opencode_native_memory.Graph.Upsert.Valid.{evidence_passes}
use opencode_native_memory.Graph.Upsert.References.{apply_upsert-references}
use opencode_native_memory.Graph.Upsert.Grounded.{quotes, apply_upsert-grounded}
use opencode_native_memory.Graph.Upsert.Runs.{apply_upsert-replays, apply_upsert-accounts}
use opencode_native_memory.Examples.Graph.Erasure.{small_graph-valid}
use opencode_native_memory.Examples.Graph.{small_graph, no_norm, provider, source, evidence_of}

abbrev pub services : Services
services = record {
  hash32 = λ text. text;
  hash_hex = λ text. text;
  fold_case = λ text. text;
  debug_time = λ _. "";
  scanners = record {
    to_lowercase = λ text. text;
    is_known_credential = λ _. false;
    credential_value = λ _. none;
    keyhog_failed = false;
    keyhog_matches = λ _. false;
  };
  classifiers = record {
    is_blocked = λ _. false;
    is_classified = λ _. false;
    to_lowercase = λ text. text;
    mask_code = λ text. text;
    is_alphanumeric = λ _. true;
  };
  policy = record { secret_scanning = false; prompt_injection_scanning = false };
}

abbrev tea_source : GraphSource
tea_source = record source { text = "tea is hot" }

abbrev quote_of : String → GraphEvidenceInput
quote_of quote = record {
  source_unit_id = "u";
  quote = quote;
  utf8_start = none;
  utf8_end = none;
  occurrence_index = 0;
}

abbrev tea : GraphEntityInput
tea = record {
  mention = "tea";
  canonical_hint = "tea";
  entity_type = "drink";
  aliases = [];
  evidence = quote_of "tea" ∷ [];
  confidence = finite64 (pos 0);
  embedding = [];
  embedding_generation_id = "";
}

abbrev tea_relation : GraphRelationInput
tea_relation = record {
  subject_mention = "tea";
  predicate = "related_to";
  object_mention = "tea";
  relation_type = "self";
  valid_at_ms = none;
  invalid_at_ms = none;
  evidence = quote_of "tea" ∷ [];
  confidence = finite64 (pos 0);
}

abbrev tea_fact : GraphFactInput
tea_fact = record {
  text = "tea is hot";
  fact_type = "world";
  context = "";
  occurred_start_ms = none;
  occurred_end_ms = none;
  mentioned_at_ms = none;
  entity_mentions = "tea" ∷ [];
  causal_fact_indexes = [];
  evidence = quote_of "is hot" ∷ [];
  confidence = finite64 (pos 0);
  embedding = [];
  embedding_generation_id = "";
}

abbrev tea_observation : GraphObservationInput
tea_observation = record {
  statement = "drinks are hot";
  source_fact_indexes = 0 ∷ [];
  confidence = finite64 (pos 0);
  embedding = [];
  embedding_generation_id = "";
}

-- a batch with one candidate of each kind, and another entity whose quote is not in the source
abbrev tea_batch : Material
tea_batch = record {
  run_id = "run_tea";
  sources = tea_source ∷ [];
  provider = provider;
  entities = tea ∷ record tea { evidence = quote_of "milk" ∷ [] } ∷ [];
  relations = tea_relation ∷ [];
  facts = tea_fact ∷ [];
  observations = tea_observation ∷ [];
  metrics = record { input_bytes = 0; output_bytes = 0; latency_ms = 0 };
}

abbrev digest_of : Material → String
digest_of q = q.run_id

abbrev tea_result : GraphUpsertOutcome × GraphState
tea_result = first_run services tea_batch 5 "run_tea" small_graph

tea_accepted : apply_upsert services tea_batch 5 digest_of small_graph ≡ ok tea_result
unfolding apply_upsert trim any_char all any get distinct byte_length
tea_accepted = refl

-- one candidate of each kind is accepted, and the entity without a quotation is not
tea_counts :
    let run = tea_result.0.run in
    (run.accepted_entity_count ∷ run.accepted_relation_count ∷ run.accepted_fact_count
      ∷ run.accepted_observation_count ∷ run.rejected_candidate_count ∷ [])
    ≡ (1 ∷ 1 ∷ 1 ∷ 1 ∷ 1 ∷ [])
unfolding first_run trim any_char all any get within64
tea_counts = refl

-- a mention of one quotation in one of two units of a memory
abbrev mention_in_unit : String → GraphMention
mention_in_unit unit = record {
  entity_id = "e1";
  evidence = record (evidence_of "m1") { source_unit_id = unit };
}

-- The repetition of a mention is kept when the same quotation from another unit stands between.
repeated_mention :
    length
      (merge_mentions (mention_in_unit "u" ∷ mention_in_unit "v" ∷ []) (mention_in_unit "u" ∷ []))
    ≡ 3
unfolding merge_mentions
repeated_mention = refl

-- the evidence of the small graph
abbrev old_evidence : GraphEvidence → Bool
old_evidence e = str_eq e.quote "q"

known_evidence : evidence_passes old_evidence small_graph ≡ true
unfolding evidence_passes all
known_evidence = refl

apply_upsert-references_example :
    let next = tea_result.1 in
    (all (λ (m : GraphMention). contains_key next.entities m.entity_id) next.mentions ≡ true)
    × (all
          (λ (e : String × GraphRelation).
            contains_key next.entities e.1.subject_entity_id
            && contains_key next.entities e.1.object_entity_id)
          next.relations
        ≡ true)
    × (all
          (λ (e : String × DerivedFact).
            all (contains_key next.entities) e.1.entity_ids
            && all (contains_key next.facts) e.1.causal_fact_ids)
          next.facts
        ≡ true)
    × (all
          (λ (e : String × GraphObservation). all (contains_key next.facts) e.1.source_fact_ids)
          next.observations
        ≡ true)
apply_upsert-references_example =
    apply_upsert-references services tea_batch 5 digest_of no_norm small_graph tea_result.1
      tea_result.0 small_graph-valid tea_accepted

apply_upsert-grounded_example :
    evidence_passes (λ e. old_evidence e || any (quotes e) (tea_source ∷ [])) tea_result.1 ≡ true
apply_upsert-grounded_example =
    apply_upsert-grounded services tea_batch 5 digest_of no_norm small_graph tea_result.1
      tea_result.0 old_evidence small_graph-valid known_evidence tea_accepted

apply_upsert-replays_example :
    apply_upsert services tea_batch 9 digest_of tea_result.1
    ≡ ok (replayed tea_result.0.run, tea_result.1)
apply_upsert-replays_example =
    apply_upsert-replays services tea_batch 5 9 digest_of small_graph tea_result.1 tea_result.0
      tea_accepted

fresh_run : get small_graph.runs "run_tea" ≡ none
unfolding get
fresh_run = refl

apply_upsert-accounts_example :
    let run = tea_result.0.run in
    (get tea_result.1.runs "run_tea" ≡ some run)
    × (((((run.accepted_entity_count + run.accepted_relation_count) + run.accepted_fact_count)
              + run.accepted_observation_count)
            + run.rejected_candidate_count)
          + run.conflict_count
        ≡ 5)
apply_upsert-accounts_example =
    apply_upsert-accounts services tea_batch 5 digest_of small_graph tea_result.1 tea_result.0
      fresh_run tea_accepted

-- a worker's report of the batch
abbrev tea_report : Finish
tea_report = record report { upsert = some (graph_parts tea_result.1) }

settle-apply_upsert_example :
    settle (λ text. text) tea_report 5 finished_job small_graph
    ≡ ok (completed_job (λ text. text) tea_report 5 finished_job, tea_result.1)
settle-apply_upsert_example =
    settle-apply_upsert (λ text. text) tea_report finished_job services tea_batch 5 digest_of
      small_graph tea_result.1 tea_result.0 refl refl tea_accepted refl
