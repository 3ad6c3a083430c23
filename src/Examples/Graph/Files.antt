-- ===== src/Examples/Graph/Files.antt =====
-- Commits of a graph that fail, crashes, and restarts.
use opencode_native_memory.Prelude.{
  ℕ, ◌≡◌, ◌⊎◌, inl, refl, false, none, some, List, [], ◌∷◌, String, any, all,
}
use opencode_native_memory.Prelude.Writes.{refused}
use opencode_native_memory.Prelude.Text.{trim, any_char}
use opencode_native_memory.Prelude.Map.{get}
use opencode_native_memory.Float.{within64}
use opencode_native_memory.Prelude.Result.{ok, err, is_ok}
use opencode_native_memory.Graph.Defs.{default_graph}
use opencode_native_memory.Graph.Validate.{pending_too_large, validate_graph}
use opencode_native_memory.Graph.Store.{
  Outcomes, GraphStore, numbered, commit_state, open_files, settle_pending, recover_opened, load,
  Encoding, PendingGraph, pending_bytes, graph_pending_max_bytes,
}
use opencode_native_memory.Graph.Store.Atomic.{current, commit_state-atomic}
use opencode_native_memory.Graph.Store.History.{
  Event, commits, restarts, history, fresh_project, IsOneOf, smooth, history-opens,
}
use opencode_native_memory.Examples.Graph.{encoding, small_graph, no_norm}

-- the process stops after the pending file is written
abbrev half : Outcomes
half = record smooth { state_write = refused }

abbrev empty_store : GraphStore
empty_store = record {
  state = default_graph;
  files = record { encoding = encoding; main = none; pending = none };
}

abbrev store_id : ℕ → String
store_id _ = "job-recover"

commit_state-atomic_example :
    let (reply, g') = commit_state no_norm half "t1" small_graph empty_store in
    ((reply ≡ ok tt)
      × (g'.state ≡ numbered default_graph small_graph)
      × (current g'.files ≡ numbered default_graph small_graph))
    ⊎ ((is_ok reply ≡ false)
        × ((current g'.files ≡ current empty_store.files)
            ⊎ (current g'.files ≡ numbered default_graph small_graph)))
unfolding validate_graph
commit_state-atomic_example =
    commit_state-atomic no_norm half "t1" small_graph empty_store refl (refl, inl refl)

abbrev events : List Event
events =
    restarts smooth smooth 5
    ∷ commits half "t1" (λ _. small_graph)
    ∷ restarts smooth smooth 6
    ∷ commits smooth "t2" (λ s. s)
    ∷ []

history-opens_example :
    let (sys, possible) = history no_norm store_id events (fresh_project encoding) in
    let opened = (open_files no_norm smooth sys.files).0 in
    IsOneOf (current sys.files) possible
    × ((opened ≡ ok (current sys.files))
        ⊎ ((p : PendingGraph) × (sys.files.pending ≡ some p)
            × (pending_bytes sys.files.encoding p ≡ graph_pending_max_bytes)
            × (opened ≡ err pending_too_large)))
history-opens_example = history-opens no_norm store_id encoding events

-- a pending text of exactly the limit
abbrev long : Encoding
long = record { state_bytes = λ _. 16777000; more_bytes = λ _. 215 }

-- It is written, and once the write of the state has failed it cannot be read again.
long_pending-refused :
    let sys =
      (history no_norm store_id
        (restarts smooth smooth 5 ∷ commits half "t1" (λ _. small_graph) ∷ [])
        (fresh_project long)).0 in
    (open_files no_norm smooth sys.files).0 ≡ err pending_too_large
unfolding history load commit_state open_files settle_pending recover_opened validate_graph any trim
    any_char within64 all get
long_pending-refused = refl
