-- ===== src/Migration.antt =====
-- omega-daemon/src/vm_migration.rs: the requests for a migration and the executor with its table of
-- tasks. A text is a list of bytes, a percentage is given by the numbers that it is computed from.
pub mod Choice
pub mod Engine
pub mod Tasks
pub mod Cleanup
use omega_fusion_core_proxmo.Prelude.{
  ℕ, ◌+◌, ◌%◌, ◌^◌, Bool, true, false, ◌&&◌, ◌||◌, Option, none, some, List, [], ◌∷◌, ◌++◌, lookup,
  leb, ◌==◌, if◌then◌else◌, select, ℕ_discrete,
}
use omega_fusion_core_proxmo.Prelude.Assoc
use omega_fusion_core_proxmo.Prelude.Assoc.{values}

pub data MigrationType : Type 0 where
  live cold : MigrationType

-- The memory used and in all, the hundredths of a percent above one vCPU with the free slots, and
-- the remote pages with the pages in all.
pub data MigrationReason : Type 0 where
  memory_pressure : ℕ → ℕ → MigrationReason
  cpu_saturation : ℕ → ℕ → MigrationReason
  excessive_remote_paging : ℕ → ℕ → MigrationReason
  maintenance_drain : MigrationReason
  admin_request : MigrationReason

pub record MigrationRequest : Type 0 where
  pub vm_id : ℕ
  pub source : List ℕ
  pub target : List ℕ
  pub mtype : MigrationType
  pub reason : MigrationReason
  pub with_local_disks : Bool

pub data MigrationState : Type 0 where
  pending running success failed : MigrationState

pub record MigrationStatus : Type 0 where
  pub task_id : ℕ
  pub request : MigrationRequest
  pub state : MigrationState
  pub elapsed_ms : ℕ
  pub error : Option (List ℕ)

pub record Executor : Type 0 where
  pub tasks : List (ℕ × MigrationStatus)
  pub next_id : ℕ

unfoldable pub new_executor : Executor
new_executor = record { tasks = []; next_id = 1 }

unfoldable pub new_status : ℕ → MigrationRequest → MigrationStatus
new_status id req = record {
  task_id = id;
  request = req;
  state = pending;
  elapsed_ms = 0;
  error = none;
}

-- The entry in the table; the background task is that of `run_migration`.
unfoldable pub spawn : MigrationRequest → Executor → Executor × ℕ
unfolding new_status
spawn req x = (
  record {
    tasks = Assoc.insert ℕ_discrete x.next_id (new_status x.next_id req) x.tasks;
    next_id = (x.next_id + 1) % 2 ^ 64;
  },
  x.next_id,
)

unfoldable pub set_status : ℕ → (MigrationStatus → MigrationStatus) → Executor → Executor
set_status id f x = record x { tasks = Assoc.modify ℕ_discrete id f x.tasks }

-- The beginning of `run_migration`.
unfoldable pub start_task : ℕ → Executor → Executor
unfolding set_status
start_task id x = set_status id (λ s. record s { state = running }) x

-- What `qm migrate` gave, with the text of its error.
pub data QmResult : Type 0 where
  qm_ok : QmResult
  qm_error : List ℕ → QmResult

-- The end of `run_migration`.
unfoldable pub finish_task : ℕ → QmResult → ℕ → Executor → Executor
unfolding set_status
finish_task id qm_ok elapsed x =
    set_status id (λ s. record s { state = success; elapsed_ms = elapsed }) x
finish_task id (qm_error e) elapsed x =
    set_status id (λ s. record s { state = failed; elapsed_ms = elapsed; error = some e }) x

abbrev pub status : Executor → ℕ → Option MigrationStatus
status x id = lookup ℕ_discrete id x.tasks

-- `sort_by_key(|s| s.task_id)`, as an insertion sort.
unfoldable pub insert_by_id : MigrationStatus → List MigrationStatus → List MigrationStatus
insert_by_id s [] = s ∷ []
insert_by_id s (t ∷ ts) = if leb s.task_id t.task_id then s ∷ t ∷ ts else t ∷ insert_by_id s ts

unfoldable pub sort_by_id : List MigrationStatus → List MigrationStatus
unfolding insert_by_id
sort_by_id [] = []
sort_by_id (s ∷ ss) = insert_by_id s (sort_by_id ss)

unfoldable pub list_all : Executor → List MigrationStatus
unfolding sort_by_id
list_all x = sort_by_id (values x.tasks)

unfoldable pub is_under_way : MigrationState → Bool
is_under_way pending = true
is_under_way running = true
is_under_way _ = false

unfoldable pub running_tasks : Executor → List MigrationStatus
unfolding list_all is_under_way
running_tasks x = select (λ s. is_under_way s.state) (list_all x)

-- `"auto"`.
abbrev pub auto : List ℕ
auto = 97 ∷ 117 ∷ 116 ∷ 111 ∷ []

unfoldable pub same_text : List ℕ → List ℕ → Bool
same_text [] [] = true
same_text [] (y ∷ ys) = false
same_text (x ∷ xs) [] = false
same_text (x ∷ xs) (y ∷ ys) = (x == y) && same_text xs ys

unfoldable pub is_live : MigrationType → Bool
is_live live = true
is_live cold = false

-- The texts `migrate`, `--online`, `--with-local-disks`, and numbers in decimals.
pub record Words : Type 0 where
  pub migrate : List ℕ
  pub online : List ℕ
  pub local_disks : List ℕ
  pub decimal : ℕ → List ℕ

unfoldable pub build_qm_args : Words → MigrationRequest → List (List ℕ)
unfolding is_live
build_qm_args words req =
    words.migrate ∷ words.decimal req.vm_id ∷ req.target ∷ []
    ++ (if is_live req.mtype then words.online ∷ [] else [])
    ++ (if req.with_local_disks then words.local_disks ∷ [] else [])

-- `qm` is what the command does with its arguments.
unfoldable pub execute_qm_migrate :
    Words → (List (List ℕ) → QmResult) → List ℕ → MigrationRequest → QmResult
unfolding same_text build_qm_args
execute_qm_migrate words qm unresolved req =
    if same_text req.target auto then qm_error unresolved else qm (build_qm_args words req)
