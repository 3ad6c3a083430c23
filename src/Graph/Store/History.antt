-- ===== src/Graph/Store/History.antt =====
-- src/graph/mod.rs: commits, failures, crashes and restarts of a store in any order.
use opencode_native_memory.Prelude.{
  ℕ, Bool, true, false, ◌≡◌, ◌⊎◌, inl, inr, refl, sym, subst, Option, none, some, String, List, [],
  ◌∷◌, ◌+◌, leb, Bool-cases, arith, if◌then◌else◌,
}
use opencode_native_memory.Prelude.Writes.{written}
use opencode_native_memory.Prelude.Result.{Result, ok, err, is_ok, ◌>>◌}
use opencode_native_memory.Float.{F32, F64}
use opencode_native_memory.Graph.Defs.{GraphState, default_graph}
use opencode_native_memory.Graph.Validate.{GraphError, pending_too_large, validate_graph}
use opencode_native_memory.Graph.Jobs.{recover_expired_jobs, has_expired_job}
use opencode_native_memory.Graph.Store.{
  Files, Outcomes, GraphStore, removed, numbered, commit_state, open_files, recover_opened, load,
  settle_pending, Encoding, PendingGraph, pending_bytes, graph_pending_max_bytes,
}
use opencode_native_memory.Graph.Store.Atomic.{
  current, files_ok, Near, Fits, commit_state-Fits, open_files-Fits, commit_state-keeps,
  commit_state-atomic, open_files-current, open_files-Near,
}

-- An operation commits what it makes of the graph in memory; a process starts, after another one has
-- stopped at any point, and loads the store.
pub data Event : Type 0 where
  commits : Outcomes → String → (GraphState → GraphState) → Event
  restarts : (opening recovering : Outcomes) → (now_ms : ℕ) → Event

-- the files, and the memory of the process that has loaded the store, if one has
pub record System : Type 0 where
  pub memory : Option GraphState
  pub files : Files

-- The graphs that the files may stand for: the last one of which a commit answered with success, and
-- those of the commits that failed since.
abbrev pub counted : Result GraphError (Unit {0}) → GraphState → List GraphState → List GraphState
counted reply next possible = if is_ok reply then next ∷ [] else next ∷ possible

unfoldable pub IsOneOf : GraphState → List GraphState → Type 0
IsOneOf s [] = ⊥
IsOneOf s (c ∷ cs) = (s ≡ c) ⊎ IsOneOf s cs

-- a project before its graph is first loaded
abbrev pub fresh_project : Encoding → System × List GraphState
fresh_project encoding = (
  record { memory = none; files = record { encoding = encoding; main = none; pending = none } },
  default_graph ∷ [],
)

abbrev pub smooth : Outcomes
smooth = record {
  projected = true;
  pending_write = written;
  state_write = written;
  removal = removed;
}

module _ (norm : List F32 → F64) (recover_id : ℕ → String) where
  abbrev pub happen : Event → System → System
  happen (commits o id change) sys = elim sys.memory [
    | none ↦ sys
    | some s ↦
        let g = (commit_state norm o id (change s) (record { state = s; files = sys.files })).1 in
        record { memory = some g.state; files = g.files }
  ]
  happen (restarts opening recovering now_ms) sys =
      let (loaded, files') = load norm recover_id opening recovering now_ms sys.files in
      record { memory = elim loaded [ err _ ↦ none | ok g ↦ some g.state ]; files = files' }

  abbrev pub possible_opened :
      Outcomes → ℕ → Result GraphError GraphState × Files → List GraphState → List GraphState
  possible_opened o now_ms (err _, files) possible = possible
  possible_opened o now_ms (ok s, files) possible =
      let next = recover_expired_jobs now_ms s in
      let g : GraphStore = record { state = s; files = files } in
      if has_expired_job now_ms s
      then counted (commit_state norm o (recover_id now_ms) next g).0 (numbered s next) possible
      else possible

  abbrev pub possible_after : Event → System → List GraphState → List GraphState
  possible_after (commits o id change) sys possible = elim sys.memory [
    | none ↦ possible
    | some s ↦
        counted (commit_state norm o id (change s) (record { state = s; files = sys.files })).0
          (numbered s (change s)) possible
  ]
  possible_after (restarts opening recovering now_ms) sys possible =
      possible_opened recovering now_ms (open_files norm opening sys.files) possible

  unfoldable pub history : List Event → System × List GraphState → System × List GraphState
  history [] at = at
  history (e ∷ es) (sys, possible) = history es (happen e sys, possible_after e sys possible)

  abbrev Stands : System × List GraphState → Type 0
  Stands (sys, possible) =
      (files_ok norm sys.files ≡ true)
      × Fits sys.files
      × (elim sys.memory [
        | none ↦ Unit {0}
        | some s ↦ Near norm (record { state = s; files = sys.files })
      ])
      × IsOneOf (current sys.files) possible

  committed-one :
      (o : Outcomes) (id : String) (changed : GraphState) (g : GraphStore)
      (possible : List GraphState)
      → files_ok norm g.files ≡ true
      → Near norm g
      → IsOneOf (current g.files) possible
      → let (reply, g') = commit_state norm o id changed g in
        IsOneOf (current g'.files) (counted reply (numbered g.state changed) possible)
  unfolding IsOneOf
  committed-one o id changed g possible fine near one =
      elim (commit_state-atomic norm o id changed g fine near) [
        | inl (done, _, is) ↦ rw done (inl is)
        | inr (failed, inl same) ↦ rw failed (inr (subst (λ c. IsOneOf c possible) (sym same) one))
        | inr (failed, inr is) ↦ rw failed (inl is)
      ]

  commits-Stands :
      (o : Outcomes) (id : String) (change : GraphState → GraphState) (memory : Option GraphState)
      (files : Files) (possible : List GraphState)
      → let sys : System = record { memory = memory; files = files } in
        Stands (sys, possible)
        → Stands
            (happen (commits o id change) sys, possible_after (commits o id change) sys possible)
  commits-Stands o id change none files possible h = h
  commits-Stands o id change (some s) files possible (fine, fits, near, one) =
      let g : GraphStore = record { state = s; files = files } in
      let (fine', near') = commit_state-keeps norm o id (change s) g fine near in
      (
        fine',
        commit_state-Fits norm o id (change s) g fits,
        near',
        committed-one o id (change s) g possible fine near one,
      )

  abbrev system : Result GraphError GraphStore × Files → System
  system (loaded, files) = record {
    memory = elim loaded [ err _ ↦ none | ok g ↦ some g.state ];
    files = files;
  }

  replied-Stands :
      (reply : Result GraphError (Unit {0})) (g : GraphStore) (possible : List GraphState)
      → files_ok norm g.files ≡ true
      → Fits g.files
      → Near norm g
      → IsOneOf (current g.files) possible
      → Stands (system (reply >> ok g, g.files), possible)
  replied-Stands (err _) g possible fine fits near one = (fine, fits, tt, one)
  replied-Stands (ok _) g possible fine fits near one = (fine, fits, near, one)

  branch-Stands :
      (test : Bool) (x y : Result GraphError GraphStore × Files) (xs ys : List GraphState)
      → Stands (system x, xs)
      → Stands (system y, ys)
      → Stands (system (if test then x else y), if test then xs else ys)
  branch-Stands true x y xs ys at_x at_y = at_x
  branch-Stands false x y xs ys at_x at_y = at_y

  recovered-Stands :
      (o : Outcomes) (now_ms : ℕ) (opened : Result GraphError GraphState × Files)
      (possible : List GraphState)
      → files_ok norm opened.1 ≡ true
      → Fits opened.1
      → IsOneOf (current opened.1) possible
      → ((s : GraphState) → opened.0 ≡ ok s → Near norm (record { state = s; files = opened.1 }))
      → Stands (
        system (recover_opened norm recover_id o now_ms opened),
        possible_opened o now_ms opened possible,
      )
  unfolding recover_opened
  recovered-Stands o now_ms (err reason, files) possible fine fits one near = (fine, fits, tt, one)
  recovered-Stands o now_ms (ok s, files) possible fine fits one near =
      let g : GraphStore = record { state = s; files = files } in
      let next = recover_expired_jobs now_ms s in
      let (reply, g') = commit_state norm o (recover_id now_ms) next g in
      let (fine', near') =
        commit_state-keeps norm o (recover_id now_ms) next g fine (near s refl) in
      let one' = committed-one o (recover_id now_ms) next g possible fine (near s refl) one in
      let fits' = commit_state-Fits norm o (recover_id now_ms) next g fits in
      let later = counted reply (numbered s next) possible in
      branch-Stands (has_expired_job now_ms s) (reply >> ok g', g'.files) (ok g, files) later
        possible (replied-Stands reply g' later fine' fits' near' one')
        (fine, fits, near s refl, one)

  -- What the one failure is that an opening without failing calls can have.
  open_files-smooth :
      (files : Files) (pending : Option PendingGraph)
      → files.pending ≡ pending
      → files_ok norm files ≡ true
      → Fits files
      → ((open_files norm smooth files).0 ≡ ok (current files))
        ⊎ ((p : PendingGraph) × (pending ≡ some p)
            × (pending_bytes files.encoding p ≡ graph_pending_max_bytes)
            × ((open_files norm smooth files).0 ≡ err pending_too_large))
  unfolding open_files settle_pending
  open_files-smooth files none there fine (main, small) = inl (ground (arith, there, fine, main))
  open_files-smooth files (some p) there fine (main, small) =
      elim (Bool-cases (leb (pending_bytes files.encoding p + 1) graph_pending_max_bytes)) [
        | inl fits ↦ inl (ground (arith, there, fine, main, small, fits))
        | inr long ↦
            inr
              (p, refl, ground (arith, there, small, long), ground (arith, there, fine, main, long))
      ]

  happen-Stands :
      (e : Event) (sys : System) (possible : List GraphState)
      → Stands (sys, possible)
      → Stands (happen e sys, possible_after e sys possible)
  unfolding load
  happen-Stands (commits o id change) sys possible h =
      commits-Stands o id change sys.memory sys.files possible h
  happen-Stands (restarts opening recovering now_ms) sys possible (fine, fits, _, one) =
      let opened = open_files norm opening sys.files in
      let (_, same, fine') = open_files-current norm opening sys.files fine in
      recovered-Stands recovering now_ms opened possible fine'
        (open_files-Fits norm opening sys.files fits)
        (subst (λ c. IsOneOf c possible) (sym same) one)
        (λ s e. open_files-Near norm opening sys.files {s = s} fine e)

  history-Stands :
      (es : List Event) (at : System × List GraphState) → Stands at → Stands (history es at)
  unfolding history
  history-Stands [] at h = h
  history-Stands (e ∷ es) (sys, possible) h =
      history-Stands es (happen e sys, possible_after e sys possible)
        (happen-Stands e sys possible h)

  -- From a project without files, after any sequence of commits and restarts, with writes, removals
  -- and projections that fail anywhere in them and commits of any graph: the files stand for the graph
  -- of the last commit that answered with success (the empty one before the first), or for the graph of
  -- a commit that has failed since. Opening them with no further failure succeeds and gives that graph,
  -- unless there is a pending file whose text has exactly as many bytes as the limit, which is refused.
  pub history-opens :
      (encoding : Encoding) (es : List Event)
      → let (sys, possible) = history es (fresh_project encoding) in
        let opened = (open_files norm smooth sys.files).0 in
        IsOneOf (current sys.files) possible
        × ((opened ≡ ok (current sys.files))
            ⊎ ((p : PendingGraph) × (sys.files.pending ≡ some p)
                × (pending_bytes sys.files.encoding p ≡ graph_pending_max_bytes)
                × (opened ≡ err pending_too_large)))
  unfolding validate_graph IsOneOf
  history-opens encoding es =
      let (sys, possible) = history es (fresh_project encoding) in
      let (fine, fits, _, one) =
        history-Stands es (fresh_project encoding) (refl, (refl, refl), tt, inl refl) in
      (one, open_files-smooth sys.files sys.files.pending refl fine fits)
