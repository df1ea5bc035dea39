-- ===== src/Migration/Tasks.antt =====
-- omega-daemon/src/vm_migration.rs: the table of tasks beside the background tasks that write to it.
-- Each background task runs `run_migration` once; their steps are interleaved.
use omega_fusion_core_proxmo.Prelude.{
  ℕ, ◌+◌, ◌^◌, ◌≤◌, ◌<◌, ◌≡◌, ◌≢◌, refl, false, Option, none, some, List, [], arith, lookup,
  ℕ_discrete, ◌∙◌, Option-cases, inl, inr,
}
use mathlib.Core.Option
use omega_fusion_core_proxmo.Prelude.Assoc
use omega_fusion_core_proxmo.Prelude.Assoc.{lookup-insert, lookup-insert_ne, lookup-modify}
use omega_fusion_core_proxmo.Migration.{
  MigrationRequest, MigrationState, pending, running, success, failed, MigrationStatus, Executor,
  new_executor, new_status, spawn, set_status, start_task, finish_task, QmResult, qm_ok, qm_error,
  status, is_under_way,
}

pub data Phase : Type 0 where
  waiting at_work over : Phase

unfoldable pub phase_of : MigrationState → Phase
phase_of pending = waiting
phase_of running = at_work
phase_of success = over
phase_of failed = over

-- The executor, and how far the background task of each migration is.
pub record Background : Type 0 where
  pub executor : Executor
  pub phases : List (ℕ × Phase)

unfoldable pub idle_background : Background
unfolding new_executor
idle_background = record { executor = new_executor; phases = [] }

-- `spawn`, with its `tokio::spawn`.
unfoldable pub after_spawn : MigrationRequest → Background → Background
unfolding spawn
after_spawn req b = record {
  executor = (spawn req b.executor).0;
  phases = Assoc.insert ℕ_discrete b.executor.next_id waiting b.phases;
}

unfoldable pub after_start : ℕ → Background → Background
unfolding start_task
after_start id b = record {
  executor = start_task id b.executor;
  phases = Assoc.insert ℕ_discrete id at_work b.phases;
}

unfoldable pub after_finish : ℕ → QmResult → ℕ → Background → Background
unfolding finish_task
after_finish id result elapsed b = record {
  executor = finish_task id result elapsed b.executor;
  phases = Assoc.insert ℕ_discrete id over b.phases;
}

pub data Step : Background → Background → Type 0 where
  spawned :
      {b : Background} (req : MigrationRequest)
      → b.executor.next_id + 1 < 2 ^ 64
      → Step b (after_spawn req b)
  started :
      {b : Background} (id : ℕ)
      → lookup ℕ_discrete id b.phases ≡ some waiting
      → Step b (after_start id b)
  finished :
      {b : Background} (id : ℕ) (result : QmResult) (elapsed : ℕ)
      → lookup ℕ_discrete id b.phases ≡ some at_work
      → Step b (after_finish id result elapsed b)

pub data Steps : Background → Background → Type 0 where
  stay : {b : Background} → Steps b b
  then_step : {b c d : Background} → Steps b c → Step c d → Steps b d

abbrev pub phase_in : Executor → ℕ → Option Phase
phase_in x id = Option.map (λ s. phase_of s.state) (status x id)

pub record IsAccounted (b : Background) : Type 0 where
  pub agreed : (id : ℕ) → phase_in b.executor id ≡ lookup ℕ_discrete id b.phases
  pub fresh : (id : ℕ) → b.executor.next_id ≤ id → lookup ℕ_discrete id b.phases ≡ none

-- One background task goes on: its entry takes the state of its new phase.
set_status-IsAccounted :
    (id : ℕ) (f : MigrationStatus → MigrationStatus) (p q : Phase) (b : Background)
    → ((s : MigrationStatus) → phase_of (f s).state ≡ q)
    → lookup ℕ_discrete id b.phases ≡ some p
    → IsAccounted b
    → IsAccounted record {
      executor = set_status id f b.executor;
      phases = Assoc.insert ℕ_discrete id q b.phases;
    }
unfolding set_status
set_status-IsAccounted id f p q b h there a = record {
  agreed = λ k. elim (Option-cases (lookup ℕ_discrete k b.executor.tasks)) [
    | inl absent ↦ ground (
      arith,
      absent,
      a.agreed k,
      lookup-modify ℕ_discrete id k f b.executor.tasks,
      lookup-insert ℕ_discrete id k q b.phases,
    )
    | inr (s, found) ↦ ground (
      arith,
      found,
      h s,
      a.agreed k,
      lookup-modify ℕ_discrete id k f b.executor.tasks,
      lookup-insert ℕ_discrete id k q b.phases,
    )
  ];
  fresh = λ k old.
      rw (lookup-insert ℕ_discrete id k q b.phases) (ground (arith, a.fresh k old, a.fresh id));
}

finish_task-set_status :
    (id : ℕ) (r : QmResult) (elapsed : ℕ) (x : Executor)
    → (f : MigrationStatus → MigrationStatus) × ((s : MigrationStatus)
        → phase_of (f s).state ≡ over)
      × (finish_task id r elapsed x ≡ set_status id f x)
unfolding finish_task phase_of
finish_task-set_status id qm_ok elapsed x =
    (λ s. record s { state = success; elapsed_ms = elapsed }, λ s. refl, refl)
finish_task-set_status id (qm_error e) elapsed x =
    (λ s. record s { state = failed; elapsed_ms = elapsed; error = some e }, λ s. refl, refl)

Step-IsAccounted : {b c : Background} → Step b c → IsAccounted b → IsAccounted c
unfolding after_spawn after_start after_finish start_task spawn new_status phase_of
Step-IsAccounted {b} (spawned req room) a = record {
  agreed = λ k. ground (
    arith,
    a.agreed k,
    lookup-insert ℕ_discrete b.executor.next_id k (new_status b.executor.next_id req)
        b.executor.tasks,
    lookup-insert ℕ_discrete b.executor.next_id k waiting b.phases,
  );
  fresh = λ k h.
      ground (arith, a.fresh k, lookup-insert ℕ_discrete b.executor.next_id k waiting b.phases);
}
Step-IsAccounted {b} (started id e) a =
    set_status-IsAccounted id (λ s. record s { state = running }) waiting at_work b (λ s. refl) e a
Step-IsAccounted {b} (finished id result elapsed e) a =
    let (f, ends, same) = finish_task-set_status id result elapsed b.executor in
    rw same (set_status-IsAccounted id f at_work over b ends e a)

set_status-other :
    (id k : ℕ) (f : MigrationStatus → MigrationStatus) (x : Executor)
    → k ≢ id
    → status (set_status id f x) k ≡ status x k
unfolding set_status
set_status-other id k f x other = ground (arith, lookup-modify ℕ_discrete id k f x.tasks)

phase_of-over : (m : MigrationState) → is_under_way m ≡ false → phase_of m ≡ over
unfolding phase_of is_under_way
phase_of-over success e = refl
phase_of-over failed e = refl
phase_of-over pending e = ground arith
phase_of-over running e = ground arith

-- Only the background task of a migration that is not over writes to an entry.
Step-status_over :
    {b c : Background}
    → Step b c
    → (k : ℕ) (s : MigrationStatus) → IsAccounted b
    → status b.executor k ≡ some s
    → is_under_way s.state ≡ false
    → status c.executor k ≡ some s
unfolding after_spawn after_start after_finish start_task spawn phase_of is_under_way
Step-status_over {b} (spawned req room) k s a found ended = ground (
  arith,
  a.agreed k,
  a.fresh k,
  lookup-insert ℕ_discrete b.executor.next_id k (new_status b.executor.next_id req)
      b.executor.tasks,
)
Step-status_over {b} (started id e) k s a found ended =
    set_status-other id k _ b.executor
      (λ same. ground (arith, same, a.agreed k, phase_of-over s.state ended))
    ∙ found
Step-status_over {b} (finished id result elapsed e) k s a found ended =
    let (f, ends, same) = finish_task-set_status id result elapsed b.executor in
    rw same (
      set_status-other id k f b.executor
        (λ same. ground (arith, same, a.agreed k, phase_of-over s.state ended))
      ∙ found)

-- Steps keep the table in agreement with the background tasks.
pub Steps-IsAccounted : {b c : Background} → Steps b c → IsAccounted b → IsAccounted c
Steps-IsAccounted stay a = a
Steps-IsAccounted (then_step before last) a = Step-IsAccounted last (Steps-IsAccounted before a)

-- From a state in which the table of migrations agrees with their background tasks, no number of
-- steps (a migration spawned before the ids reach 2^64, a background task started, one ended by a
-- result of `qm`), in any order, changes the entry of a migration that succeeded or failed.
pub Steps-status_over :
    {b c : Background}
    → Steps b c
    → (id : ℕ) (s : MigrationStatus) → IsAccounted b
    → status b.executor id ≡ some s
    → is_under_way s.state ≡ false
    → status c.executor id ≡ some s
unfolding is_under_way
Steps-status_over stay id s a found ended = found
Steps-status_over (then_step before last) id s a found ended =
    Step-status_over last id s (Steps-IsAccounted before a)
      (Steps-status_over before id s a found ended) ended
