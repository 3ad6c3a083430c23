-- ===== src/Graph/Store.antt =====
-- src/graph/mod.rs and src/storage/atomic.rs: the two files that keep the graph, how a commit writes
-- them and how opening the store reads them. A file is what its text decodes to; how long the text is
-- is a parameter. Whether the projection to RDF can be built, and how a write or a removal turns out,
-- are outcomes.
pub mod Atomic
pub mod History
use opencode_native_memory.Prelude.{
  ℕ, ◌+◌, Bool, true, false, not, ◌&&◌, Option, none, some, String, ltb, leb, ◌==◌, unwrap_or,
  is_none_or, List, if◌then◌else◌,
}
use opencode_native_memory.Prelude.Writes.{Write, written, unsynced, refused, write_ok}
use opencode_native_memory.Prelude.Result.{Result, ok, err, ensure, ◌>>=◌, ◌>>◌}
use opencode_native_memory.Float.{F32, F64}
use opencode_native_memory.Graph.Defs.{GraphState, default_graph, graph_schema_version}
use opencode_native_memory.Graph.Validate.{
  GraphError, unsupported_version, rdf_failed, pending_failed, commit_failed, cleanup_failed,
  state_too_large, pending_too_large, validate_graph,
}
use opencode_native_memory.Graph.Jobs.{add_u64, recover_expired_jobs, has_expired_job}

pub record PendingGraph : Type 0 where
  pub schema_version : ℕ
  pub transaction_id : String
  pub state : GraphState

-- How long the texts are that `serde_json` writes. That of a pending transaction is longer than that of
-- its graph, which it holds: by one byte, and `more_bytes`.
pub record Encoding : Type 0 where
  pub state_bytes : GraphState → ℕ
  pub more_bytes : PendingGraph → ℕ

abbrev pub pending_bytes : Encoding → PendingGraph → ℕ
pending_bytes encoding p = (encoding.state_bytes p.state + 1) + encoding.more_bytes p

abbrev pub graph_state_max_bytes : ℕ
graph_state_max_bytes = 16777216

abbrev pub graph_pending_max_bytes : ℕ
graph_pending_max_bytes = 16777216

-- the two files, and how their texts are encoded, which nothing changes
pub record Files : Type 0 where
  pub encoding : Encoding
  pub main : Option GraphState
  pub pending : Option PendingGraph

-- How `remove_file_durable` ends: with the file gone, with the file gone and the directory not
-- synced, or with an error that leaves the file.
pub data Removal : Type 0 where
  removed unsynced_removal left : Removal

pub record Outcomes : Type 0 where
  pub projected : Bool
  pub pending_write : Write
  pub state_write : Write
  pub removal : Removal

-- the state in memory and the files
pub record GraphStore : Type 0 where
  pub state : GraphState
  pub files : Files

-- How `write_json_atomic` ends for a text of some bytes, which it measures before it writes anything.
abbrev pub measured : ℕ → ℕ → Write → Write
measured bytes max_bytes outcome = if leb bytes max_bytes then outcome else refused

-- what the file holds then
abbrev pub write_json_atomic {ℓ} : {A : Type ℓ} → Write → A → Option A → Option A
write_json_atomic written new old = some new
write_json_atomic unsynced new old = some new
write_json_atomic refused new old = old

abbrev pub removal_ok : Removal → Bool
removal_ok removed = true
removal_ok unsynced_removal = false
removal_ok left = false

-- `remove_file_durable`: what is left of the file
abbrev pub remove_file_durable {ℓ} : {A : Type ℓ} → Removal → Option A → Option A
remove_file_durable removed old = none
remove_file_durable unsynced_removal old = none
remove_file_durable left old = old

-- the state that a commit tries to make the current one
abbrev pub numbered : GraphState → GraphState → GraphState
numbered current next = record next { generation = add_u64 current.generation 1 }

abbrev pub is_valid : (List F32 → F64) → GraphState → Bool
is_valid norm s = elim (validate_graph norm s) [ ok _ ↦ true | err _ ↦ false ]

module _ (norm : List F32 → F64) where
  unfoldable pub commit_state :
      Outcomes → String → GraphState → GraphStore → Result GraphError (Unit {0}) × GraphStore
  commit_state o transaction_id changed g =
      let next = numbered g.state changed in
      let pending : PendingGraph = record {
        schema_version = graph_schema_version;
        transaction_id = transaction_id;
        state = next;
      } in
      let encoding = g.files.encoding in
      let pending_write =
        measured (pending_bytes encoding pending) graph_pending_max_bytes o.pending_write in
      let state_write = measured (encoding.state_bytes next) graph_state_max_bytes o.state_write in
      let prepared : Files = record g.files {
        pending = write_json_atomic pending_write pending g.files.pending;
      } in
      let installed : Files = record prepared {
        main = write_json_atomic state_write next prepared.main;
      } in
      let cleared : Files = record installed {
        pending = remove_file_durable o.removal installed.pending;
      } in
      elim (validate_graph norm next) [
        | err reason ↦ (err reason, g)
        | ok _ ↦
            if not o.projected
            then (err rdf_failed, g)
            else if not (write_ok pending_write)
            then (err pending_failed, record g { files = prepared })
            else if not (write_ok state_write)
            then (err commit_failed, record g { files = installed })
            else (
              ensure (removal_ok o.removal) cleanup_failed,
              record { state = next; files = cleared },
            )
      ]

  -- the part of `GraphStore::load` about the pending file, which is read as its text and a newline
  unfoldable pub settle_pending :
      Outcomes → GraphState → PendingGraph → Files → Result GraphError GraphState × Files
  settle_pending o state pending files =
      let encoding = files.encoding in
      let newer = ltb state.generation pending.state.generation in
      let state_write =
        measured (encoding.state_bytes pending.state) graph_state_max_bytes o.state_write in
      let installed : Files =
        if newer
        then record files { main = write_json_atomic state_write pending.state files.main }
        else files in
      let cleared : Files = record installed {
        pending = remove_file_durable o.removal installed.pending;
      } in
      if not (leb (pending_bytes encoding pending + 1) graph_pending_max_bytes)
      then (err pending_too_large, files)
      else if not (pending.schema_version == graph_schema_version)
      then (err unsupported_version, files)
      else elim (validate_graph norm pending.state) [
        | err reason ↦ (err reason, files)
        | ok _ ↦ if newer && not (write_ok state_write) then (err commit_failed, installed) else (
          ensure (removal_ok o.removal) cleanup_failed
              >> (ensure o.projected rdf_failed >> ok (if newer then pending.state else state)),
          cleared,
        )
      ]

  -- `GraphStore::load` up to the recovery of leases: the result and what the files hold then
  unfoldable pub open_files : Outcomes → Files → Result GraphError GraphState × Files
  unfolding settle_pending
  open_files o files =
      let state = unwrap_or files.main default_graph in
      let bytes = λ (s : GraphState). files.encoding.state_bytes s + 1 in
      if not (is_none_or files.main (λ s. leb (bytes s) graph_state_max_bytes))
      then (err state_too_large, files)
      else elim (validate_graph norm state) [
        | err reason ↦ (err reason, files)
        | ok _ ↦ elim files.pending [
          | none ↦ (ensure o.projected rdf_failed >> ok state, files)
          | some pending ↦ settle_pending o state pending files
        ]
      ]

  -- `recover_job_leases` of the store that was opened; `recover_id` writes a transaction's id
  unfoldable pub recover_opened :
      (ℕ → String)
      → Outcomes
      → ℕ
      → Result GraphError GraphState × Files
      → Result GraphError GraphStore × Files
  recover_opened recover_id o now_ms (err reason, files) = (err reason, files)
  recover_opened recover_id o now_ms (ok state, files) =
      let g : GraphStore = record { state = state; files = files } in
      let (reply, g') = commit_state o (recover_id now_ms) (recover_expired_jobs now_ms state) g in
      if has_expired_job now_ms state then (reply >> ok g', g'.files) else (ok g, files)

  -- `GraphStore::load`
  unfoldable pub load :
      (ℕ → String) → Outcomes → Outcomes → ℕ → Files → Result GraphError GraphStore × Files
  unfolding open_files recover_opened
  load recover_id opening recovering now_ms files =
      recover_opened recover_id recovering now_ms (open_files opening files)
