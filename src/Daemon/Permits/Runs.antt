-- ===== src/Daemon/Permits/Runs.antt =====
-- src/daemon/actor.rs: the account holds for every interleaving, and ends at zero.
use opencode_native_memory.Prelude.{
  ℕ, ◌<◌, ◌≡◌, refl, ap, ◌∙◌, inl, inr, Bool, true, false, none, some, List, [], ◌∷◌, String, arith,
  all, Option-cases,
}
use opencode_native_memory.Daemon.Permits.{
  usize_values, Phase, reserving, refused, held, dropping, gone, QueuePermit, Queues, Action,
  reserve_project, reserve_global, roll_back, drop_project, drop_global, nth, advance_global,
  release_project, release_global, step, run, no_permits,
}
use opencode_native_memory.Daemon.Permits.Accounting.{
  counts_for_project, counts_for_all, project_share, global_share, total, IsAccounted,
  begin_reserve-IsAccounted, advance_global-IsAccounted, release_project-IsAccounted,
  release_global-IsAccounted,
}

-- A step on the permit at place `n` keeps the account, if it does so when there is one.
at_permit :
    (limit n : ℕ) (q : Queues) (f : QueuePermit → Queues)
    → ((p : QueuePermit) → nth q.permits n ≡ some p → IsAccounted limit (f p))
    → IsAccounted limit q
    → IsAccounted limit (elim (nth q.permits n) [ none ↦ q | some p ↦ f p ])
at_permit limit n q f law acc = elim (Option-cases (nth q.permits n)) [
  | inl missing ↦ rw missing acc
  | inr (p, at) ↦ rw at (law p at)
]

-- What a step does to a permit in each phase, where it keeps the account.
module _ (limit n : ℕ) (q : Queues) (small : limit < usize_values) (acc : IsAccounted limit q) where
  at_reserve_global :
      (phase : Phase) (p : QueuePermit)
      → p.phase ≡ phase
      → nth q.permits n ≡ some p
      → IsAccounted limit (elim phase [ reserving ↦ advance_global limit n p q | _ ↦ q ])
  at_reserve_global reserving p ready at = advance_global-IsAccounted limit n p q at ready acc
  at_reserve_global refused p ready at = acc
  at_reserve_global held p ready at = acc
  at_reserve_global dropping p ready at = acc
  at_reserve_global gone p ready at = acc

  at_roll_back :
      (phase : Phase) (p : QueuePermit)
      → p.phase ≡ phase
      → nth q.permits n ≡ some p
      → IsAccounted limit (elim phase [ refused ↦ release_project n p gone q | _ ↦ q ])
  at_roll_back refused p ready at =
      release_project-IsAccounted limit n p gone q at (ap counts_for_project ready) refl
        (ap counts_for_all ready) acc
  at_roll_back reserving p ready at = acc
  at_roll_back held p ready at = acc
  at_roll_back dropping p ready at = acc
  at_roll_back gone p ready at = acc

  at_drop_project :
      (phase : Phase) (p : QueuePermit)
      → p.phase ≡ phase
      → nth q.permits n ≡ some p
      → IsAccounted limit (elim phase [ held ↦ release_project n p dropping q | _ ↦ q ])
  at_drop_project held p ready at =
      release_project-IsAccounted limit n p dropping q at (ap counts_for_project ready) refl
        (ap counts_for_all ready) acc
  at_drop_project reserving p ready at = acc
  at_drop_project refused p ready at = acc
  at_drop_project dropping p ready at = acc
  at_drop_project gone p ready at = acc

  at_drop_global :
      (phase : Phase) (p : QueuePermit)
      → p.phase ≡ phase
      → nth q.permits n ≡ some p
      → IsAccounted limit (elim phase [ dropping ↦ release_global n p q | _ ↦ q ])
  at_drop_global dropping p ready at = release_global-IsAccounted limit n p q small at ready acc
  at_drop_global reserving p ready at = acc
  at_drop_global refused p ready at = acc
  at_drop_global held p ready at = acc
  at_drop_global gone p ready at = acc

step-IsAccounted :
    (limit : ℕ) (a : Action) (q : Queues)
    → limit < usize_values
    → IsAccounted limit q
    → IsAccounted limit (step limit a q)
unfolding step
step-IsAccounted limit (reserve_project project bytes) q small acc =
    begin_reserve-IsAccounted limit project bytes q acc
step-IsAccounted limit (reserve_global n) q small acc =
    at_permit limit n q _ (λ p at. at_reserve_global limit n q small acc p.phase p refl at) acc
step-IsAccounted limit (roll_back n) q small acc =
    at_permit limit n q _ (λ p at. at_roll_back limit n q small acc p.phase p refl at) acc
step-IsAccounted limit (drop_project n) q small acc =
    at_permit limit n q _ (λ p at. at_drop_project limit n q small acc p.phase p refl at) acc
step-IsAccounted limit (drop_global n) q small acc =
    at_permit limit n q _ (λ p at. at_drop_global limit n q small acc p.phase p refl at) acc

run_from :
    (limit : ℕ) (actions : List Action) (q : Queues)
    → limit < usize_values
    → IsAccounted limit q
    → IsAccounted limit (run limit actions q)
unfolding run
run_from limit [] q small acc = acc
run_from limit (a ∷ rest) q small acc =
    run_from limit rest (step limit a q) small (step-IsAccounted limit a q small acc)

-- However calls reserve and give back bytes, step by step and in any order, each project's counter
-- holds exactly the bytes of that project's permits and at most 64 MiB, and the shared counter those
-- of all permits and at most its limit.
pub run-IsAccounted :
    (limit : ℕ) (actions : List Action)
    → limit < usize_values
    → IsAccounted limit (run limit actions no_permits)
unfolding total
run-IsAccounted limit actions small = run_from limit actions no_permits small (record {
  project_exact = λ s. refl;
  global_exact = refl;
  project_bound = λ s. omega arith;
  global_bound = omega arith;
})

abbrev is_gone : QueuePermit → Bool
is_gone p = elim p.phase [ gone ↦ true | _ ↦ false ]

total-gone :
    (share : QueuePermit → ℕ) (ps : List QueuePermit)
    → ((p : QueuePermit) → is_gone p ≡ true → share p ≡ 0)
    → all is_gone ps ≡ true
    → total share ps ≡ 0
unfolding total all
total-gone share [] none_left h = refl
total-gone share (p ∷ ps) none_left h =
    ground (arith, none_left p, total-gone share ps none_left, h)

-- Once every permit is gone, no bytes are left in any counter.
pub run-drained :
    (limit : ℕ) (actions : List Action) (project : String)
    → limit < usize_values
    → all is_gone (run limit actions no_permits).permits ≡ true
    → ((run limit actions no_permits).project_bytes project ≡ 0)
      × ((run limit actions no_permits).global_bytes ≡ 0)
run-drained limit actions project small all_gone =
    let acc = run-IsAccounted limit actions small in
    let ps = (run limit actions no_permits).permits in
    (
      acc.project_exact project
          ∙ total-gone (project_share project) ps (λ p h. ground (arith, h)) all_gone,
      acc.global_exact ∙ total-gone global_share ps (λ p h. ground (arith, h)) all_gone,
    )
