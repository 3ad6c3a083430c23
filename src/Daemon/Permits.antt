-- ===== src/Daemon/Permits.antt =====
-- src/daemon/actor.rs: the bytes that queued calls hold. Each project has a counter, and all projects
-- share one more; a call takes its bytes from both and gives them back when its permit is dropped.
-- The counters are atomic, and every access to one is a step of its own.
pub mod Accounting
pub mod Runs
use opencode_native_memory.Prelude.{
  ℕ, zero, suc, ◌+◌, ◌-◌, ◌*◌, ◌/◌, ◌%◌, ◌^◌, Bool, true, false, ◌&&◌, Option, none, some, List, [],
  ◌∷◌, String, str_eq, if◌then◌else◌, ltb, leb,
}

abbrev pub usize_values : ℕ
usize_values = 2 ^ 64

abbrev pub project_queue_bytes : ℕ
project_queue_bytes = 64 * 1024 * 1024

-- `reserve_bytes`: the counter's new value, if the update is made
unfoldable pub reserve_bytes : ℕ → ℕ → ℕ → Option ℕ
reserve_bytes current bytes limit =
    if ltb (current + bytes) usize_values && leb (current + bytes) limit
    then some (current + bytes)
    else none

-- `AtomicUsize::fetch_sub`, which wraps around
unfoldable pub fetch_sub : ℕ → ℕ → ℕ
fetch_sub current bytes = (current + usize_values - bytes) % usize_values

-- How far a permit is: in the middle of `QueuePermit::reserve`, refused by the second counter but not
-- yet taken off the first, in a queued command, in the middle of its `Drop`, or gone.
pub data Phase : Type 0 where
  reserving refused held dropping gone : Phase

pub record QueuePermit : Type 0 where
  pub project : String
  pub bytes : ℕ
  pub phase : Phase

pub record Queues : Type 0 where
  pub project_bytes : String → ℕ
  pub global_bytes : ℕ
  pub permits : List QueuePermit

-- Permits are named by their place in the list, which keeps those that are gone.
pub data Action : Type 0 where
  reserve_project : String → ℕ → Action
  reserve_global roll_back drop_project drop_global : ℕ → Action

unfoldable pub nth : List QueuePermit → ℕ → Option QueuePermit
nth [] n = none
nth (p ∷ ps) zero = some p
nth (p ∷ ps) (suc n) = nth ps n

unfoldable pub set_phase : List QueuePermit → ℕ → Phase → List QueuePermit
set_phase [] n phase = []
set_phase (p ∷ ps) zero phase = record p { phase = phase } ∷ ps
set_phase (p ∷ ps) (suc n) phase = p ∷ set_phase ps n phase

abbrev pub set_project : String → ℕ → (String → ℕ) → String → ℕ
set_project project bytes counters other = if str_eq project other then bytes else counters other

-- The steps of one permit, at its place `n`. A step that the permit is not ready for does nothing.
unfoldable pub advance_global : ℕ → ℕ → QueuePermit → Queues → Queues
unfolding set_phase reserve_bytes
advance_global limit n p q = elim (reserve_bytes q.global_bytes p.bytes limit) [
  | some total ↦ record q { global_bytes = total; permits = set_phase q.permits n held }
  | none ↦ record q { permits = set_phase q.permits n refused }
]

abbrev release_project : ℕ → QueuePermit → Phase → Queues → Queues
release_project n p phase q = record q {
  project_bytes =
      set_project p.project (fetch_sub (q.project_bytes p.project) p.bytes) q.project_bytes;
  permits = set_phase q.permits n phase;
}

unfoldable pub release_global : ℕ → QueuePermit → Queues → Queues
unfolding set_phase fetch_sub
release_global n p q = record q {
  global_bytes = fetch_sub q.global_bytes p.bytes;
  permits = set_phase q.permits n gone;
}

unfoldable pub begin_reserve : String → ℕ → Queues → Queues
unfolding reserve_bytes
begin_reserve project bytes q =
    elim (reserve_bytes (q.project_bytes project) bytes project_queue_bytes) [
      | none ↦ q
      | some total ↦ record q {
        project_bytes = set_project project total q.project_bytes;
        permits = record { project = project; bytes = bytes; phase = reserving } ∷ q.permits;
      }
    ]

-- One atomic access: the project's share of a new reservation, the shared counter's share of it, the
-- project's bytes given back after a refusal, and the two halves of `QueuePermit::drop`.
unfoldable pub step : ℕ → Action → Queues → Queues
unfolding nth begin_reserve advance_global release_global
step limit (reserve_project project bytes) q = begin_reserve project bytes q
step limit (reserve_global n) q = elim (nth q.permits n) [
  | none ↦ q
  | some p ↦ elim p.phase [ reserving ↦ advance_global limit n p q | _ ↦ q ]
]
step limit (roll_back n) q = elim (nth q.permits n) [
  | none ↦ q
  | some p ↦ elim p.phase [ refused ↦ release_project n p gone q | _ ↦ q ]
]
step limit (drop_project n) q = elim (nth q.permits n) [
  | none ↦ q
  | some p ↦ elim p.phase [ held ↦ release_project n p dropping q | _ ↦ q ]
]
step limit (drop_global n) q = elim (nth q.permits n) [
  | none ↦ q
  | some p ↦ elim p.phase [ dropping ↦ release_global n p q | _ ↦ q ]
]

-- Any number of calls of any number of projects, with their steps in any order.
unfoldable pub run : ℕ → List Action → Queues → Queues
unfolding step
run limit [] q = q
run limit (a ∷ rest) q = run limit rest (step limit a q)

abbrev pub no_permits : Queues
no_permits = record { project_bytes = λ _. 0; global_bytes = 0; permits = [] }
