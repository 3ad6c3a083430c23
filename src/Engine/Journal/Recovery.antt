-- ===== src/Engine/Journal/Recovery.antt =====
-- src/engine/mod.rs: a batch that is interrupted after it was journaled takes effect on reopening.
use opencode_native_memory.Prelude.{
  true, false, not, ◌≡◌, ◌⊎◌, refl, ap, subst, ◌∙◌, inl, inr, List, [], ◌∷◌, String, arith, map,
  all, length, ◌==◌, Bool-cases,
}
use opencode_native_memory.Prelude.Map.{Map, get}
use opencode_native_memory.Prelude.Writes.{Write, written}
use opencode_native_memory.Prelude.Result.{Result, ok, err, ensure, >>-eq-ok}
use opencode_native_memory.State.Defs.{PendingDocument, PendingUpsert, MemoryState}
use opencode_native_memory.State.Save.{save, save-ok, sort, normalize_relations}
use opencode_native_memory.Engine.Journal.{
  Engine, Outcomes, Outcome, EngineError, batch_empty, dimension_mismatch, pending_id,
  upsert_documents, insert_pending, collect, complete, journal_batch, check_fresh, check_batch,
  is_nil, fits_dimension, write_pending_documents, finalize_pending_upserts, commit_pending_upserts,
  recover_ids, recover_pending_upserts, reopen, keys,
}
use opencode_native_memory.Engine.Journal.Batch.{entry, insert_pending-empty, collect-empty}
use opencode_native_memory.Engine.Journal.Documents.{upsert_documents-again}

-- Every call succeeds.
abbrev pub all_well : Outcomes
all_well = record {
  first_save = written;
  graph = true;
  write = true;
  written = 0;
  last_save = written;
}

-- Two runs with the same result, state and file, and the same documents under every key.
pub record SameStore (a b : Outcome) : Type 0 where
  pub result : a.0 ≡ b.0
  pub state : a.1.state ≡ b.1.state
  pub file : a.1.file ≡ b.1.file
  pub documents : (k : String) → get a.1.documents k ≡ get b.1.documents k

save-pending_upserts :
    (file s : MemoryState)
    → (save written file s).result ≡ ok tt
    → (save written file s).state.pending_upserts ≡ s.pending_upserts
unfolding save normalize_relations
save-pending_upserts file s h = ground arith

finalize-documents :
    (l : Write) (ids : List String) (e : Engine) (d : Map PendingDocument)
    → finalize_pending_upserts l ids (record e { documents = d }) ≡ (
      (finalize_pending_upserts l ids e).0,
      record (finalize_pending_upserts l ids e).1 { documents = d },
    )
unfolding finalize_pending_upserts
finalize-documents l ids e d = ground arith

record Journaled (pending : List PendingUpsert) (e e1 : Engine) : Type 0 where
  durable : e1.file ≡ e1.state
  held : e1.state.pending_upserts ≡ map entry pending
  fresh : check_fresh [] [] (map pending_id pending) ≡ ok tt
  some_item : is_nil pending ≡ false
  same_documents : e1.documents ≡ e.documents
  same_dimension : e1.dimension ≡ e.dimension

check_batch-parts :
    (s : MemoryState) (pending : List PendingUpsert)
    → check_batch s pending ≡ ok tt
    → (is_nil pending ≡ false) × (check_fresh [] s.pending_upserts (map pending_id pending) ≡ ok tt)
unfolding check_batch
check_batch-parts s pending h =
    let (filled, rest) = >>-eq-ok (ensure (not (is_nil pending)) batch_empty) _ h in
    (
      ground (arith, filled),
      (>>-eq-ok (check_fresh [] s.pending_upserts (map pending_id pending)) _ rest).0,
    )

journal_batch-Journaled :
    (pending : List PendingUpsert) (e : Engine)
    → e.state.pending_upserts ≡ []
    → (journal_batch written pending e).0 ≡ ok tt
    → Journaled pending e (journal_batch written pending e).1
unfolding journal_batch
journal_batch-Journaled pending e empty h =
    let inserted : MemoryState = record e.state {
      pending_upserts = insert_pending e.state.pending_upserts pending;
    } in
    let passed : check_batch e.state pending ≡ ok tt = ground arith in
    let (filled, fresh') = check_batch-parts e.state pending passed in
    let fresh : check_fresh [] [] (map pending_id pending) ≡ ok tt =
      subst (λ m. check_fresh [] m (map pending_id pending) ≡ ok tt) empty fresh' in
    let wrote : (save written e.file inserted).result ≡ ok tt = ground (arith, passed) in
    let entered : insert_pending e.state.pending_upserts pending ≡ map entry pending =
      ap (λ m. insert_pending m pending) empty ∙ insert_pending-empty pending fresh in
    record {
      durable = ground (arith, passed, wrote, save-ok e.file inserted wrote);
      held = ground (arith, passed, wrote, entered, save-pending_upserts e.file inserted wrote);
      fresh = fresh;
      some_item = filled;
      same_documents = ground (arith, passed, wrote);
      same_dimension = ground (arith, passed, wrote);
    }

-- Two stores that hold the same but for documents that the batch itself writes.
record Aligned (pending : List PendingUpsert) (a b : Engine) : Type 0 where
  state : a.state ≡ b.state
  file : a.file ≡ b.file
  dimension : a.dimension ≡ b.dimension
  documents :
      (a.documents ≡ b.documents)
      ⊎ ((all (fits_dimension b.dimension) pending ≡ true)
          × ((k : String)
              → get (upsert_documents a.documents pending) k
                ≡ get (upsert_documents b.documents pending) k))

interrupted-write :
    (o : Outcomes) (pending : List PendingUpsert) (e : Engine)
    → o.write ≡ false
    → Aligned pending (write_pending_documents o pending e).1 e
      × ((x : EngineError) × ((write_pending_documents o pending e).0 ≡ err x))
unfolding write_pending_documents
interrupted-write o pending e stop = elim (Bool-cases (is_nil pending)) [
  | inl nil ↦
      rw (nil, write_pending_documents)
        (record { state = refl; file = refl; dimension = refl; documents = inl refl }, (_, refl))
  | inr filled ↦ elim (Bool-cases (all (fits_dimension e.dimension) pending)) [
    | inr misfit ↦
        rw (filled, misfit, write_pending_documents)
          (record { state = refl; file = refl; dimension = refl; documents = inl refl }, (_, refl))
    | inl fit ↦
        rw (filled, fit, stop, write_pending_documents)
          (
            record {
              state = refl;
              file = refl;
              dimension = refl;
              documents = inr (fit, upsert_documents-again e.documents o.written pending);
            },
            (_, refl),
          )
  ]
]

-- A run that stops at the graph or at the collection changes nothing but such documents.
complete-Aligned :
    (o : Outcomes) (ids : List String) (pending : List PendingUpsert) (e : Engine)
    → (o.graph ≡ false) ⊎ (o.write ≡ false)
    → Aligned pending (complete o ids pending e).1 e
unfolding complete
complete-Aligned o ids pending e stop = elim (Bool-cases o.graph) [
  | inr refused ↦
      rw (refused, complete)
        record { state = refl; file = refl; dimension = refl; documents = inl refl }
  | inl graph ↦
      let (kept, why) = interrupted-write o pending e (ground (arith, graph)) in
      let (x, failed) = why in
      let e' = (write_pending_documents o pending e).1 in
      let failed' : write_pending_documents o pending e ≡ (err x, e') =
        ap (λ (r : Result EngineError (Unit {0})). (r, e')) failed in
      rw (graph, failed', complete) kept
]

module _ (ids : List String) (pending : List PendingUpsert) (e : Engine) (d : Map PendingDocument)
    (filled : is_nil pending ≡ false) where
  complete-misfit :
      all (fits_dimension e.dimension) pending ≡ false
      → complete all_well ids pending e ≡ (err dimension_mismatch, e)
  unfolding complete write_pending_documents
  complete-misfit misfit = ground (arith, filled)

  complete-fit :
      all (fits_dimension e.dimension) pending ≡ true
      → complete all_well ids pending (record e { documents = d }) ≡ (
        (finalize_pending_upserts written ids e).0,
        record (finalize_pending_upserts written ids e).1 {
          documents = upsert_documents d pending;
        },
      )
  unfolding complete write_pending_documents
  complete-fit fit =
      rw (filled, fit) (finalize-documents written ids e (upsert_documents d pending))

complete-documents :
    (ids : List String) (pending : List PendingUpsert) (e : Engine) (d : Map PendingDocument)
    → is_nil pending ≡ false
    → (d ≡ e.documents)
      ⊎ ((all (fits_dimension e.dimension) pending ≡ true)
          × ((k : String)
              → get (upsert_documents d pending) k ≡ get (upsert_documents e.documents pending) k))
    → SameStore
        (complete all_well ids pending (record e { documents = d }))
        (complete all_well ids pending e)
complete-documents ids pending e d filled (inl same) =
    rw same (record { result = refl; state = refl; file = refl; documents = λ k. refl })
complete-documents ids pending e d filled (inr (fit, same)) =
    rw (complete-fit ids pending e d filled fit, complete-fit ids pending e e.documents filled fit)
      (record { result = refl; state = refl; file = refl; documents = same })

-- From aligned stores, completing the batch has the same outcome.
complete-SameStore :
    (ids : List String) (pending : List PendingUpsert) (a b : Engine)
    → is_nil pending ≡ false
    → Aligned pending a b
    → SameStore (complete all_well ids pending a) (complete all_well ids pending b)
complete-SameStore ids pending a b filled same =
    let e : record b { documents = a.documents } ≡ a =
      ground (arith, same.state, same.file, same.dimension) in
    subst (λ x. SameStore (complete all_well ids pending x) (complete all_well ids pending b)) e
      (complete-documents ids pending b a.documents filled same.documents)

keys-entry : (ps : List PendingUpsert) → keys (map entry ps) ≡ map pending_id ps
keys-entry [] = refl
keys-entry (p ∷ ps) = rw (keys-entry ps)

length-ids :
    (ps : List PendingUpsert) → is_nil ps ≡ false → (length (map pending_id ps) == 0) ≡ false
length-ids [] h = cc
length-ids (p ∷ ps) h = ground arith

-- Recovery completes exactly the batch that the journal holds.
recover-complete :
    (pending : List PendingUpsert) (e : Engine)
    → e.state.pending_upserts ≡ map entry pending
    → sort (map pending_id pending) ≡ map pending_id pending
    → is_nil pending ≡ false
    → check_fresh [] [] (map pending_id pending) ≡ ok tt
    → recover_pending_upserts all_well e ≡ complete all_well (map pending_id pending) pending e
unfolding recover_pending_upserts
recover-complete pending e held sorted filled fresh =
    let ids = map pending_id pending in
    let order : sort (keys e.state.pending_upserts) ≡ ids =
      ap (λ m. sort (keys m)) held ∙ ap sort (keys-entry pending) ∙ sorted in
    let found : collect e.state.pending_upserts ids ≡ ok pending =
      ap (λ m. collect m ids) held ∙ collect-empty pending fresh in
    ap (λ x. recover_ids all_well x e) order ∙ ground (arith, found, length-ids pending filled)

commit-complete :
    (o : Outcomes) (pending : List PendingUpsert) (e : Engine)
    → (journal_batch written pending e).0 ≡ ok tt
    → o.first_save ≡ written
    → commit_pending_upserts o pending e
      ≡ complete o (map pending_id pending) pending (journal_batch written pending e).1
unfolding commit_pending_upserts
commit-complete o pending e journaled first =
    let whole : journal_batch written pending e ≡ (ok tt, (journal_batch written pending e).1) =
      ap (λ (r : Result EngineError (Unit {0})). (r, (journal_batch written pending e).1))
        journaled in
    rw (ap (λ w. journal_batch w pending e) first ∙ whole)

-- A batch of new memories that is journaled, and then interrupted at the graph or at the
-- collection, is completed when the store is opened again: with the journal empty before and the
-- batch in the order of its ids, recovery ends with the result, state, file and documents of an
-- uninterrupted commit.
pub recovery :
    (o : Outcomes) (pending : List PendingUpsert) (e : Engine)
    → e.state.pending_upserts ≡ []
    → sort (map pending_id pending) ≡ map pending_id pending
    → (journal_batch written pending e).0 ≡ ok tt
    → o.first_save ≡ written
    → (o.graph ≡ false) ⊎ (o.write ≡ false)
    → SameStore
        (recover_pending_upserts all_well (reopen (commit_pending_upserts o pending e).1))
        (commit_pending_upserts all_well pending e)
recovery o pending e empty sorted journaled first stop =
    let ids = map pending_id pending in
    let j = (journal_batch written pending e).1 in
    let held = journal_batch-Journaled pending e empty journaled in
    let c = (complete o ids pending j).1 in
    let kept = complete-Aligned o ids pending j stop in
    let reopened : (reopen c).state ≡ j.state = kept.file ∙ held.durable in
    let aligned : Aligned pending (reopen c) j = record {
      state = reopened;
      file = kept.file;
      dimension = kept.dimension;
      documents = kept.documents;
    } in
    rw
      (
        commit-complete o pending e journaled first,
        commit-complete all_well pending e journaled refl,
        recover-complete pending (reopen c)
            (ap (λ (s : MemoryState). s.pending_upserts) reopened ∙ held.held) sorted held.some_item
            held.fresh,
      )
      (complete-SameStore ids pending (reopen c) j held.some_item aligned)
