-- ===== src/Daemon/Permits/Accounting.antt =====
-- src/daemon/actor.rs: the byte counters agree with the permits, however the calls interleave.
use opencode_native_memory.Prelude.{
  ℕ, zero, suc, ◌+◌, ◌≤◌, ◌<◌, ◌^◌, ◌≡◌, ap, inl, inr, Bool, true, false, ◌&&◌, some, List, [], ◌∷◌,
  String, str_eq, eq_iff, eq_refl, arith, if◌then◌else◌, Bool-cases, Option-cases,
}
use opencode_native_memory.Daemon.Permits.{
  usize_values, project_queue_bytes, reserve_bytes, fetch_sub, Phase, reserving, refused, held,
  dropping, gone, QueuePermit, Queues, nth, set_phase, advance_global, release_project,
  release_global, begin_reserve,
}

abbrev pub counts_for_project : Phase → Bool
counts_for_project reserving = true
counts_for_project refused = true
counts_for_project held = true
counts_for_project dropping = false
counts_for_project gone = false

abbrev pub counts_for_all : Phase → Bool
counts_for_all held = true
counts_for_all dropping = true
counts_for_all reserving = false
counts_for_all refused = false
counts_for_all gone = false

-- the bytes of a permit that stand in the counter of `project`, and in the shared counter
abbrev pub project_share : String → QueuePermit → ℕ
project_share project p =
    if str_eq p.project project && counts_for_project p.phase then p.bytes else 0

abbrev pub global_share : QueuePermit → ℕ
global_share p = if counts_for_all p.phase then p.bytes else 0

unfoldable pub total : (QueuePermit → ℕ) → List QueuePermit → ℕ
total share [] = 0
total share (p ∷ ps) = share p + total share ps

-- The counters hold exactly the bytes of the permits, within their limits.
pub record IsAccounted (limit : ℕ) (q : Queues) : Type 0 where
  pub project_exact :
      (project : String) → q.project_bytes project ≡ total (project_share project) q.permits
  pub global_exact : q.global_bytes ≡ total global_share q.permits
  pub project_bound : (project : String) → q.project_bytes project ≤ project_queue_bytes
  pub global_bound : q.global_bytes ≤ limit

total-set_phase :
    (share : QueuePermit → ℕ) (ps : List QueuePermit) (n : ℕ) (phase : Phase) {p : QueuePermit}
    → nth ps n ≡ some p
    → total share (set_phase ps n phase) + share p
      ≡ total share ps + share (record p { phase = phase })
unfolding total nth set_phase
total-set_phase share [] n phase at = cc
total-set_phase share (x ∷ ps) zero phase at = ground (arith, at)
total-set_phase share (x ∷ ps) (suc n) phase at = omega (arith, total-set_phase share ps n phase at)

share-le-total :
    (share : QueuePermit → ℕ) (ps : List QueuePermit) (n : ℕ) {p : QueuePermit}
    → nth ps n ≡ some p
    → share p ≤ total share ps
unfolding total nth
share-le-total share [] n at = cc
share-le-total share (x ∷ ps) zero at = ground (arith, at)
share-le-total share (x ∷ ps) (suc n) at = omega (arith, share-le-total share ps n at)

fetch_sub_exact :
    (current bytes : ℕ)
    → bytes ≤ current
    → current < 2 ^ 64
    → fetch_sub current bytes + bytes ≡ current
unfolding fetch_sub
fetch_sub_exact current bytes le fits = omega arith

reserve_bytes-some :
    (current bytes limit : ℕ) {t : ℕ}
    → reserve_bytes current bytes limit ≡ some t
    → (t ≡ current + bytes) × (t ≤ limit)
unfolding reserve_bytes
reserve_bytes-some current bytes limit h = (ground (arith, h), ground (arith, h))

pub begin_reserve-IsAccounted :
    (limit : ℕ) (project : String) (bytes : ℕ) (q : Queues)
    → IsAccounted limit q
    → IsAccounted limit (begin_reserve project bytes q)
unfolding begin_reserve total
begin_reserve-IsAccounted limit project bytes q acc =
    elim (Option-cases (reserve_bytes (q.project_bytes project) bytes project_queue_bytes)) [
      | inl refusal ↦ rw (refusal, begin_reserve) acc
      | inr (t, taken) ↦
          let (sum, fits) =
            reserve_bytes-some (q.project_bytes project) bytes project_queue_bytes taken in
          rw (taken, begin_reserve)
            (record {
              project_exact = λ s. elim (Bool-cases (str_eq project s)) [
                | inl same ↦ ground (
                  arith,
                  same,
                  sum,
                  ap q.project_bytes ((eq_iff project s).0 same),
                  acc.project_exact s,
                )
                | inr other ↦ ground (arith, other, acc.project_exact s)
              ];
              global_exact = omega (arith, acc.global_exact);
              project_bound = λ s. ground (arith, fits, acc.project_bound s);
              global_bound = acc.global_bound;
            })
    ]

pub advance_global-IsAccounted :
    (limit n : ℕ) (p : QueuePermit) (q : Queues)
    → nth q.permits n ≡ some p
    → p.phase ≡ reserving
    → IsAccounted limit q
    → IsAccounted limit (advance_global limit n p q)
unfolding advance_global
advance_global-IsAccounted limit n p q at ready acc =
    elim (Option-cases (reserve_bytes q.global_bytes p.bytes limit)) [
      | inl refusal ↦
          rw (refusal, advance_global)
            (record {
              project_exact = λ s. ground (
                arith,
                ready,
                acc.project_exact s,
                total-set_phase (project_share s) q.permits n refused at,
              );
              global_exact = ground (
                arith,
                ready,
                acc.global_exact,
                total-set_phase global_share q.permits n refused at,
              );
              project_bound = acc.project_bound;
              global_bound = acc.global_bound;
            })
      | inr (t, taken) ↦
          let (sum, fits) = reserve_bytes-some q.global_bytes p.bytes limit taken in
          rw (taken, advance_global)
            (record {
              project_exact = λ s. ground (
                arith,
                ready,
                acc.project_exact s,
                total-set_phase (project_share s) q.permits n held at,
              );
              global_exact = ground (
                arith,
                ready,
                sum,
                acc.global_exact,
                total-set_phase global_share q.permits n held at,
              );
              project_bound = acc.project_bound;
              global_bound = fits;
            })
    ]

pub release_project-IsAccounted :
    (limit n : ℕ) (p : QueuePermit) (phase : Phase) (q : Queues)
    → nth q.permits n ≡ some p
    → counts_for_project p.phase ≡ true
    → counts_for_project phase ≡ false
    → counts_for_all p.phase ≡ counts_for_all phase
    → IsAccounted limit q
    → IsAccounted limit (release_project n p phase q)
release_project-IsAccounted limit n p phase q at counted uncounted shared acc =
    let before = q.project_bytes p.project in
    let own : p.bytes ≤ before = ground (
      arith,
      counted,
      eq_refl p.project,
      acc.project_exact p.project,
      share-le-total (project_share p.project) q.permits n at,
    ) in
    let left = fetch_sub_exact before p.bytes own (omega (arith, acc.project_bound p.project)) in
    record {
      project_exact = λ s. elim (Bool-cases (str_eq p.project s)) [
        | inl same ↦ ground (
          arith,
          same,
          counted,
          uncounted,
          left,
          ap q.project_bytes ((eq_iff p.project s).0 same),
          acc.project_exact s,
          total-set_phase (project_share s) q.permits n phase at,
        )
        | inr other ↦ ground (
          arith,
          other,
          acc.project_exact s,
          total-set_phase (project_share s) q.permits n phase at,
        )
      ];
      global_exact =
          ground
            (arith, shared, acc.global_exact, total-set_phase global_share q.permits n phase at);
      project_bound = λ s. ground (arith, left, acc.project_bound s, acc.project_bound p.project);
      global_bound = acc.global_bound;
    }

pub release_global-IsAccounted :
    (limit n : ℕ) (p : QueuePermit) (q : Queues)
    → limit < usize_values
    → nth q.permits n ≡ some p
    → p.phase ≡ dropping
    → IsAccounted limit q
    → IsAccounted limit (release_global n p q)
unfolding release_global
release_global-IsAccounted limit n p q small at ready acc =
    let own : p.bytes ≤ q.global_bytes =
      ground (arith, ready, acc.global_exact, share-le-total global_share q.permits n at) in
    let left =
      fetch_sub_exact q.global_bytes p.bytes own (omega (arith, acc.global_bound, small)) in
    record {
      project_exact = λ s. ground (
        arith,
        ready,
        acc.project_exact s,
        total-set_phase (project_share s) q.permits n gone at,
      );
      global_exact =
          ground (
            arith,
            ready,
            left,
            acc.global_exact,
            total-set_phase global_share q.permits n gone at,
          );
      project_bound = acc.project_bound;
      global_bound = omega (arith, left, acc.global_bound);
    }
