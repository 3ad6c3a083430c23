-- ===== src/Graph/Upsert/Sound/Observations.antt =====
-- src/graph/mod.rs: `build_observation` keeps the graph sound.
use opencode_native_memory.Prelude.{
  ℕ, Bool, true, ◌≡◌, refl, Option, none, some, List, [], ◌∷◌, String, subst, not, all, map, arith,
}
use opencode_native_memory.Prelude.Map.{Map, get, contains_key}
use opencode_native_memory.Prelude.Values.{all-insert, all-get}
use opencode_native_memory.Prelude.Result.{Result, ok, ensure, ◌>>=◌, ◌>>◌, >>=-eq-ok, ok-inj}
use opencode_native_memory.Graph.Defs.{
  GraphEvidence, DerivedFact, GraphObservation, GraphMention, GraphState, GraphProvider,
}
use opencode_native_memory.Graph.Validate.{is_nil}
use opencode_native_memory.Graph.Upsert.Evidence.{dedup_evidence}
use opencode_native_memory.Graph.Upsert.Sound.{observation_ok, sound}
use opencode_native_memory.Graph.Upsert.Known.{
  accepted_ok, all-extend_ids, all-collect_set, source_facts-known, all-modify_by,
}
use opencode_native_memory.Prelude.Map.{modify}
use opencode_native_memory.Graph.Upsert.{Services, GraphObservationInput, UpsertError, no_evidence}
use opencode_native_memory.Graph.Upsert.Facts.{Accepted}
use opencode_native_memory.Graph.Upsert.Observations.{
  Proof, source_facts, facts_scope, fact_evidence, check_statement, proof_of, find_proof,
  observation_id, superseded, retire, put_observation, place_observation, build_observation,
}
use opencode_native_memory.Graph.Upsert.Sound.Facts.{PassIsSound}

find_proof-known :
    (sv : Services) (facts : Map DerivedFact) (accepted : Accepted) (indexes : List ℕ) (x : Proof)
    → all (accepted_ok facts) accepted ≡ true
    → find_proof sv accepted indexes ≡ ok x
    → all (contains_key facts) x.source_fact_ids ≡ true
unfolding find_proof
find_proof-known sv facts accepted indexes x known h =
    let guard : List DerivedFact → Result UpsertError (Unit {0}) =
      λ fs. ensure (not (is_nil (dedup_evidence (fact_evidence fs)))) no_evidence in
    let (fs, hf, h) =
      >>=-eq-ok (source_facts accepted indexes)
        (λ fs. facts_scope fs >>= λ scope. guard fs >> ok (proof_of sv fs scope)) h in
    let (scope, _, h) =
      >>=-eq-ok (facts_scope fs) (λ scope. guard fs >> ok (proof_of sv fs scope)) h in
    let (_, _, h) = >>=-eq-ok (guard fs) (λ _. ok (proof_of sv fs scope)) h in
    subst (λ (x : Proof). all (contains_key facts) x.source_fact_ids ≡ true) (ok-inj h)
      (all-collect_set (contains_key facts) (map (λ (f : DerivedFact). f.fact_id) fs)
        (source_facts-known facts accepted known indexes hf))

module _ (p : GraphEvidence → Bool) (mentions : List GraphMention) where
  retire-ok :
      (fs : Map DerivedFact) (now_ms : ℕ) (ids : List String) (m : Map GraphObservation)
      → all (observation_ok p fs) m ≡ true
      → all (observation_ok p fs) (retire now_ms ids m) ≡ true
  unfolding retire
  retire-ok fs now_ms [] m h = h
  retire-ok fs now_ms (id ∷ ids) m h =
      let retired =
        λ (o : GraphObservation). record o { freshness = "retired"; updated_at_ms = now_ms } in
      retire-ok fs now_ms ids (modify m id retired)
        (all-modify_by (observation_ok p fs) retired m id (λ j v k. k) h)

  put_observation-ok :
      (fs : Map DerivedFact) (sv : Services) (provider : GraphProvider) (now_ms : ℕ)
      (c : GraphObservationInput) (x : Proof) (m : Map GraphObservation)
      (o : Option GraphObservation)
      → all (contains_key fs) x.source_fact_ids ≡ true
      → all (observation_ok p fs) m ≡ true
      → get m (observation_id sv c x.scope) ≡ o
      → all (observation_ok p fs) (put_observation sv provider now_ms c x m o).1 ≡ true
  put_observation-ok fs sv provider now_ms c x m none hx h e =
      let id = observation_id sv c x.scope in
      let ids = superseded x id m in
      all-insert (observation_ok p fs) (retire now_ms ids m) id
        (put_observation sv provider now_ms c x m none).0 (retire-ok fs now_ms ids m h) hx
  put_observation-ok fs sv provider now_ms c x m (some old) hx h e =
      let id = observation_id sv c x.scope in
      all-insert (observation_ok p fs) m id (put_observation sv provider now_ms c x m (some old)).0
        h
        (all-extend_ids (contains_key fs) old.source_fact_ids x.source_fact_ids
          (all-get (observation_ok p fs) m id h e) hx)

  pub build_observation-ok :
      (sv : Services) (provider : GraphProvider) (now_ms : ℕ) (accepted : Accepted)
      (c : GraphObservationInput) (s : GraphState) (o : GraphObservation) (next : GraphState)
      → PassIsSound p mentions accepted s
      → build_observation sv provider now_ms accepted c s ≡ ok (o, next)
      → PassIsSound p mentions accepted next
  unfolding build_observation place_observation sound
  build_observation-ok sv provider now_ms accepted c s o next h made =
      let place : Proof → Result UpsertError (GraphObservation × GraphState) =
        λ x. ok (place_observation sv provider now_ms c s x) in
      let (_, _, made) =
        >>=-eq-ok (check_statement sv c)
          (λ _. find_proof sv accepted c.source_fact_indexes >>= place) made in
      let (x, hx, made) = >>=-eq-ok (find_proof sv accepted c.source_fact_indexes) place made in
      let known = find_proof-known sv s.facts accepted c.source_fact_indexes x h.1 hx in
      let good =
        put_observation-ok s.facts sv provider now_ms c x s.observations
          (get s.observations (observation_id sv c x.scope)) known (ground (arith, h)) refl in
      subst (λ (r : GraphObservation × GraphState). PassIsSound p mentions accepted r.1)
        (ok-inj made) (ground (arith, h, good), h.1, h.2)
