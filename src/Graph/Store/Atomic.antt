-- ===== src/Graph/Store/Atomic.antt =====
-- src/graph/mod.rs: what the files of the graph hold around one commit.
use opencode_native_memory.Prelude.{
  Bool, true, false, ◌&&◌, ◌≡◌, ◌⊎◌, none, some, String, ltb, leb, ◌==◌, unwrap_or, is_none_or,
  arith, List, if◌then◌else◌,
}
use opencode_native_memory.Prelude.Result.{ok, is_ok}
use opencode_native_memory.Float.{F32, F64}
use opencode_native_memory.Graph.Defs.{GraphState, default_graph, graph_schema_version}
use opencode_native_memory.Graph.Jobs.{add_u64}
use opencode_native_memory.Graph.Store.{
  PendingGraph, Files, Outcomes, GraphStore, numbered, is_valid, commit_state, settle_pending,
  open_files, pending_bytes, graph_state_max_bytes, graph_pending_max_bytes,
}

abbrev pub main_state : Files → GraphState
main_state files = unwrap_or files.main default_graph

-- The state that the two files stand for: the pending one, if it is the newer.
abbrev pub current : Files → GraphState
current files = elim files.pending [
  | none ↦ main_state files
  | some p ↦
      if ltb (main_state files).generation p.state.generation then p.state else main_state files
]

-- The text of the graph in the main file, if it is there, is shorter than the limit, and that of the
-- pending file is not longer.
abbrev pub Fits : Files → Type 0
Fits files =
    (is_none_or files.main (λ s. ltb (files.encoding.state_bytes s) graph_state_max_bytes) ≡ true)
    × (is_none_or files.pending (λ p. leb (pending_bytes files.encoding p) graph_pending_max_bytes)
        ≡ true)

module _ (norm : List F32 → F64) where
  abbrev pub pending_ok : PendingGraph → Bool
  pending_ok p = (p.schema_version == graph_schema_version) && is_valid norm p.state

  -- what opening the store asks of the two files
  abbrev pub files_ok : Files → Bool
  files_ok files = is_valid norm (main_state files) && is_none_or files.pending pending_ok

  -- The pending file is at most one generation ahead of the memory, and the main file holds the
  -- graph of the memory or is a generation ahead of it.
  abbrev pub Near : GraphStore → Type 0
  Near g =
      (is_none_or g.files.pending
          (λ (p : PendingGraph). leb p.state.generation (add_u64 g.state.generation 1))
        ≡ true)
      × ((main_state g.files ≡ g.state)
          ⊎ ((main_state g.files).generation ≡ add_u64 g.state.generation 1))

  pub commit_state-keeps :
      (o : Outcomes) (id : String) (changed : GraphState) (g : GraphStore)
      → files_ok g.files ≡ true
      → Near g
      → let g' = (commit_state norm o id changed g).1 in (files_ok g'.files ≡ true) × Near g'
  unfolding commit_state
  commit_state-keeps o id changed g fine (ahead, near) =
      (ground (arith, fine, ahead), (ground (arith, ahead), ground (arith, near)))

  -- From files in which the main one holds a valid graph and the pending one, if there is one, a
  -- valid graph at most one generation ahead of the memory, and in which the main one holds the
  -- graph of the memory or one a generation ahead: a commit that answers with success leaves files
  -- that stand for the new graph, which is then the one in memory; one that fails leaves files that
  -- stand for what they stood for before, or for the new graph.
  pub commit_state-atomic :
      (o : Outcomes) (id : String) (changed : GraphState) (g : GraphStore)
      → files_ok g.files ≡ true
      → Near g
      → let (reply, g') = commit_state norm o id changed g in
        ((reply ≡ ok tt)
          × (g'.state ≡ numbered g.state changed)
          × (current g'.files ≡ numbered g.state changed))
        ⊎ ((is_ok reply ≡ false)
            × ((current g'.files ≡ current g.files)
                ⊎ (current g'.files ≡ numbered g.state changed)))
  unfolding commit_state
  commit_state-atomic o id changed g fine (ahead, near) = ground (arith, ahead, near)

  pub open_files-current :
      (o : Outcomes) (files : Files)
      → files_ok files ≡ true
      → let (opened, files') = open_files norm o files in
        ((opened ≡ ok (current files)) ⊎ (is_ok opened ≡ false))
        × (current files' ≡ current files)
        × (files_ok files' ≡ true)
  unfolding open_files settle_pending
  open_files-current o files fine =
      (ground (arith, fine), ground (arith, fine), ground (arith, fine))

  pub open_files-Near :
      (o : Outcomes) (files : Files) {s : GraphState}
      → files_ok files ≡ true
      → (open_files norm o files).0 ≡ ok s
      → Near (record { state = s; files = (open_files norm o files).1 })
  unfolding open_files settle_pending
  open_files-Near o files fine opened = (ground (arith, fine, opened), ground (arith, fine, opened))

  pub commit_state-Fits :
      (o : Outcomes) (id : String) (changed : GraphState) (g : GraphStore)
      → Fits g.files
      → Fits (commit_state norm o id changed g).1.files
  unfolding commit_state
  commit_state-Fits o id changed g (main, pending) = (ground (arith, main), ground (arith, pending))

  pub open_files-Fits :
      (o : Outcomes) (files : Files) → Fits files → Fits (open_files norm o files).1
  unfolding open_files settle_pending
  open_files-Fits o files (main, pending) =
      (ground (arith, main, pending), ground (arith, main, pending))
