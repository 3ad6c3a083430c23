-- ===== src/Engine/Deletion/Recovery.antt =====
-- src/engine/mod.rs: what is left of memories when their journaled deletion is repeated.
use mathlib.Core.Option
use opencode_native_memory.Prelude.{
  true, false, not, ◌&&◌, ◌≡◌, ◌∙◌, refl, ap, sym, inl, inr, none, List, [], ◌∷◌, String, str_eq,
  eq_iff, any, map, arith, Bool-cases, Option-cases, if◌then◌else◌, subst,
}
use opencode_native_memory.Prelude.Map.{Map, get, remove, contains_key, get-remove}
use opencode_native_memory.Prelude.Result.{ok}
use opencode_native_memory.Prelude.Writes.{Write}
use opencode_native_memory.Float.{F32, F64}
use opencode_native_memory.State.Defs.{PendingDocument, MemoryState}
use opencode_native_memory.State.Validate.{contains}
use opencode_native_memory.State.Saved.{get-normalized}
use opencode_native_memory.State.Save.{save, save-written, normalize_relations, normalize_metadata}
use opencode_native_memory.Engine.Removal.{unlink, remove_state_record}
use opencode_native_memory.Engine.Removal.Fate.{contains-without, get-unlink_self, get-unlink, fate}
use opencode_native_memory.Graph.Erase.{erase_sources}
use opencode_native_memory.Engine.Deletion.{
  DeleteOutcomes, Stores, fetch_documents, delete_documents, forget, forget_all, is_nil,
  save_forgotten, recover_pending_deletes,
}

-- Nothing of the memory is left in the collection, nor in the file of the state.
abbrev pub IsGone : String → Stores → Type 0
IsGone id e =
    (get e.documents id ≡ none)
    × (get e.file.records id ≡ none)
    × (contains e.file.pending_deletes id ≡ false)

get-delete_documents :
    (m : Map PendingDocument) (ids : List String) (id : String)
    → get (delete_documents m ids) id ≡ (if contains ids id then none else get m id)
unfolding delete_documents any
get-delete_documents m [] id = refl
get-delete_documents m (k ∷ ids) id =
    ground (arith, get-delete_documents (remove m k) ids id, get-remove m k id)

get-remove_state_record :
    (s : MemoryState) (k id : String)
    → get s.records id ≡ none
    → get (remove_state_record s k).records id ≡ none
unfolding remove_state_record
get-remove_state_record s k id absent = elim (Option-cases (get s.records k)) [
  | inl missing ↦ ground (arith, missing, absent)
  | inr (m, found) ↦ elim (Bool-cases (str_eq k id)) [
    | inl same ↦
        let eq : k ≡ id = (eq_iff k id).0 same in
        ground (
          arith,
          found,
          ap (λ i. get (unlink s.records k m) i) (sym eq),
          get-unlink_self s.records k m,
        )
    | inr other ↦
        ground
          (arith, found, get-unlink s.records k m id other, ap (Option.map (fate k m id)) absent)
  ]
]

get-remove_state_record_self :
    (s : MemoryState) (id : String) → get (remove_state_record s id).records id ≡ none
unfolding remove_state_record
get-remove_state_record_self s id = elim (Option-cases (get s.records id)) [
  | inl missing ↦ ground (arith, missing)
  | inr (m, found) ↦ ground (arith, found, get-unlink_self s.records id m)
]

pending-remove_state_record :
    (s : MemoryState) (id : String) → (remove_state_record s id).pending_deletes ≡ s.pending_deletes
unfolding remove_state_record
pending-remove_state_record s id = ground arith

records-forget_all :
    (s : MemoryState) (ids : List String) (id : String)
    → get s.records id ≡ none
    → get (forget_all s ids).records id ≡ none
unfolding forget_all
records-forget_all s [] id absent = absent
records-forget_all s (k ∷ ids) id absent =
    records-forget_all (forget s k) ids id (get-remove_state_record s k id absent)

records-forgotten :
    (s : MemoryState) (ids : List String) (id : String)
    → contains ids id ≡ true
    → get (forget_all s ids).records id ≡ none
unfolding forget_all any
records-forgotten s [] id h = cc
records-forgotten s (k ∷ ids) id h = elim (Bool-cases (str_eq k id)) [
  | inl same ↦ records-forget_all (forget s k) ids id (
      subst (λ i. get (remove_state_record s k).records i ≡ none) ((eq_iff k id).0 same)
        (get-remove_state_record_self s k))
  | inr other ↦ records-forgotten (forget s k) ids id (ground (arith, h, other))
]

pending-forget_all :
    (s : MemoryState) (ids : List String) (id : String)
    → contains (forget_all s ids).pending_deletes id
      ≡ (contains s.pending_deletes id && not (contains ids id))
unfolding forget_all any
pending-forget_all s [] id = ground arith
pending-forget_all s (k ∷ ids) id = ground (
  arith,
  pending-forget_all (forget s k) ids id,
  contains-without (remove_state_record s k).pending_deletes k id,
  ap (λ ps. contains ps id) (pending-remove_state_record s k),
  eq_iff k id,
  eq_iff id k,
)

-- a save that succeeds writes no record that was not there, and the journal of deletions as it is
saved-absent :
    (outcome : Write) (file s : MemoryState) (id : String)
    → (save outcome file s).result ≡ ok tt
    → get s.records id ≡ none
    → (get (save outcome file s).file.records id ≡ none)
      × ((save outcome file s).file.pending_deletes ≡ s.pending_deletes)
unfolding save normalize_relations
saved-absent outcome file s id h absent = (
  ground (
    arith,
    h,
    save-written outcome file s h,
    get-normalized s.records id,
    ap (Option.map normalize_metadata) absent,
  ),
  ground (arith, h, save-written outcome file s h),
)

unfoldable pub fetched : Map PendingDocument → List String → List String
fetched documents ids = map (λ (id, _). id) (fetch_documents documents ids)

pub contains-fetched :
    (documents : Map PendingDocument) (ids : List String) (id : String)
    → contains (fetched documents ids) id ≡ (contains ids id && contains_key documents id)
unfolding fetched fetch_documents any
contains-fetched documents [] id = refl
contains-fetched documents (k ∷ ids) id = elim (Option-cases (get documents k)) [
  | inl missing ↦ ground (arith, missing, contains-fetched documents ids id, eq_iff k id)
  | inr (d, found) ↦ ground (arith, found, contains-fetched documents ids id, eq_iff k id)
]

not_fetched :
    (documents : Map PendingDocument) (ids : List String) (id : String)
    → contains ids id ≡ true
    → is_nil (fetched documents ids) ≡ true
    → get documents id ≡ none
unfolding any
not_fetched documents ids id h nothing =
    ground (arith, h, nothing, contains-fetched documents ids id)

pub deleted-absent :
    (documents : Map PendingDocument) (ids : List String) (id : String)
    → contains ids id ≡ true
    → get (delete_documents documents (fetched documents ids)) id ≡ none
deleted-absent documents ids id h = ground (
  arith,
  h,
  contains-fetched documents ids id,
  get-delete_documents documents (fetched documents ids) id,
)

pub save_forgotten-IsGone :
    {A : Type 0} (reply : A) (outcome : Write) (ids : List String) (e : Stores) (id : String)
    → (save outcome e.file (forget_all e.state ids)).result ≡ ok tt
    → contains ids id ≡ true
    → get e.documents id ≡ none
    → IsGone id (save_forgotten reply outcome ids e).1
save_forgotten-IsGone reply outcome ids e id saved h absent =
    let s = forget_all e.state ids in
    let (records, pending) =
      saved-absent outcome e.file s id saved (records-forgotten e.state ids id h) in
    (
      ground (arith, saved, absent),
      ground (arith, saved, records),
      ground
          (arith, saved, pending-forget_all e.state ids id, h, ap (λ ps. contains ps id) pending),
    )

save_forgotten-ok :
    (outcome : Write) (ids : List String) (e : Stores)
    → (save_forgotten tt outcome ids e).0 ≡ ok tt
    → (save outcome e.file (forget_all e.state ids)).result ≡ ok tt
save_forgotten-ok outcome ids e done = ground (arith, done)

module _ (norm : List F32 → F64) where
  -- When the deletions in the journal are repeated and that succeeds, then of every memory in the
  -- journal nothing is left: no document in the collection, no record in the file of the state, and
  -- no entry in its journal of deletions.
  pub recover_pending_deletes-IsGone :
      (o : DeleteOutcomes) (transaction_id : String) (e : Stores) (id : String)
      → (recover_pending_deletes norm o transaction_id e).0 ≡ ok tt
      → contains e.state.pending_deletes id ≡ true
      → IsGone id (recover_pending_deletes norm o transaction_id e).1
  unfolding recover_pending_deletes fetched any
  recover_pending_deletes-IsGone o transaction_id e id done h =
      let ids = e.state.pending_deletes in
      let (erasure, graph) = erase_sources norm ids o.graph transaction_id e.graph in
      let e1 : Stores = record e { graph = graph } in
      let found = fetched e.documents ids in
      let e2 : Stores = record e1 { documents = delete_documents e.documents found } in
      elim (Bool-cases (is_nil found)) [
        | inl nothing ↦
            let eq : recover_pending_deletes norm o transaction_id e
                ≡ save_forgotten tt o.last_save ids e1 =
              ground (arith, done, nothing, h) in
            subst (λ r. IsGone id r.1) (sym eq)
              (save_forgotten-IsGone tt o.last_save ids e1 id
                (save_forgotten-ok o.last_save ids e1 (ap (λ r. r.0) (sym eq) ∙ done)) h
                (not_fetched e.documents ids id h nothing))
        | inr some_found ↦
            let eq : recover_pending_deletes norm o transaction_id e
                ≡ save_forgotten tt o.last_save ids e2 =
              ground (arith, done, some_found, h) in
            subst (λ r. IsGone id r.1) (sym eq)
              (save_forgotten-IsGone tt o.last_save ids e2 id
                (save_forgotten-ok o.last_save ids e2 (ap (λ r. r.0) (sym eq) ∙ done)) h
                (deleted-absent e.documents ids id h))
      ]
