-- ===== src/Gpu/Mux.antt =====
-- omega-daemon/src/gpu_multiplexer.rs: the budgets of video memory and the handlers of the frames.
-- The physical GPU is a parameter, and so are the texts of the errors; the average latency, an
-- `f64`, is left out. One message is handled after the other.
use omega_fusion_core_proxmo.Prelude.{
  ℕ, zero, suc, ◌+◌, ◌-◌, ◌*◌, ◌/◌, ◌%◌, ◌^◌, min, Bool, true, false, Option, none, some, List, [],
  ◌++◌, lookup, leb, ltb, if◌then◌else◌, length, take, drop, ℕ_discrete,
}
use mathlib.Core.Option
use omega_fusion_core_proxmo.Prelude.Assoc
use omega_fusion_core_proxmo.Gpu.{
  MsgType, Priority, GpuMessage, got, bad, AllocRequest, new_header, make_result, make_error,
  decode_alloc, encode_response, read_gpu, write_gpu,
}
use omega_fusion_core_proxmo.Gpu.Endian.{from_le}

pub record VmVramBudget : Type 0 where
  pub vm_id : ℕ
  pub budget_mib : ℕ
  pub used_mib : ℕ
  pub handle_count : ℕ

unfoldable pub new_budget : ℕ → ℕ → VmVramBudget
new_budget vm mib = record { vm_id = vm; budget_mib = mib; used_mib = 0; handle_count = 0 }

-- `bytes.div_ceil(1024 * 1024)`.
unfoldable pub mib_of : ℕ → ℕ
mib_of bytes = (bytes + (1024 * 1024 - 1)) / (1024 * 1024)

unfoldable pub can_alloc_bytes : ℕ → VmVramBudget → Bool
unfolding mib_of
can_alloc_bytes bytes b = leb ((b.used_mib + mib_of bytes) % 2 ^ 64) b.budget_mib

unfoldable pub alloc_bytes : ℕ → VmVramBudget → VmVramBudget × Bool
unfolding can_alloc_bytes
alloc_bytes bytes b =
    if can_alloc_bytes bytes b
    then (
      record b {
        used_mib = (b.used_mib + mib_of bytes) % 2 ^ 64;
        handle_count = (b.handle_count + 1) % 2 ^ 32;
      },
      true,
    )
    else (b, false)

unfoldable pub free_bytes : ℕ → VmVramBudget → VmVramBudget
unfolding mib_of
free_bytes bytes b = record b {
  used_mib = b.used_mib - min (mib_of bytes) b.used_mib;
  handle_count = b.handle_count - 1;
}

-- What the physical GPU answers; the text is that of the error.
pub data GpuReply {ℓ} (A : Type ℓ) : Type ℓ where
  ready : A → GpuReply A
  fault : List ℕ → GpuReply A

pub record GpuBackend (B : Type 0) : Type 0 where
  pub submit : B → List ℕ → B × GpuReply (List ℕ)
  pub alloc_vram : B → ℕ → ℕ → B × GpuReply ℕ
  pub free_vram : B → ℕ → B × GpuReply (Unit {0})
  pub sync : B → B × GpuReply (Unit {0})

pub record GpuMuxStats : Type 0 where
  pub total_commands : ℕ
  pub low_priority_commands : ℕ
  pub normal_priority_commands : ℕ
  pub high_priority_commands : ℕ
  pub realtime_priority_commands : ℕ
  pub total_allocs : ℕ
  pub total_frees : ℕ
  pub rejected_oom : ℕ

abbrev pub next : ℕ → ℕ
next n = (n + 1) % 2 ^ 64

unfoldable pub record_priority : Priority → GpuMuxStats → GpuMuxStats
record_priority Priority.low s = record s { low_priority_commands = next s.low_priority_commands }
record_priority Priority.normal s = record s {
  normal_priority_commands = next s.normal_priority_commands;
}
record_priority Priority.high s = record s {
  high_priority_commands = next s.high_priority_commands;
}
record_priority Priority.real_time s = record s {
  realtime_priority_commands = next s.realtime_priority_commands;
}

unfoldable pub record_command : Priority → GpuMuxStats → GpuMuxStats
unfolding record_priority
record_command p s = record_priority p (record s { total_commands = next s.total_commands })

pub record GpuMux (B : Type 0) : Type 0 where
  pub budgets : List (ℕ × VmVramBudget)
  pub stats : GpuMuxStats
  pub gpu : B

-- What becomes of a command between the connection and the worker.
pub data CmdFate : Type 0 where
  served channel_closed worker_gone timed_out : CmdFate

module _ {B : Type 0} (backend : GpuBackend B) (text : ℕ → List ℕ) where
  open backend use {submit, alloc_vram, free_vram, sync}

  unfoldable pub set_vm_budget : ℕ → ℕ → GpuMux B → GpuMux B
  unfolding new_budget
  set_vm_budget vm mib s = record s {
    budgets = Assoc.insert ℕ_discrete vm (new_budget vm mib) s.budgets;
  }

  unfoldable pub release_gpu : ℕ → GpuMux B → GpuMux B
  release_gpu vm s = record s { budgets = Assoc.remove ℕ_discrete vm s.budgets }

  -- `entry(vm_id).or_insert_with(...)`: 256 MiB by default.
  unfoldable pub budget_of : ℕ → GpuMux B → VmVramBudget
  unfolding new_budget
  budget_of vm s = Option.get_or (lookup ℕ_discrete vm s.budgets) (new_budget vm 256)

  -- The answer of the physical GPU to an allocation that fits the budget.
  unfoldable pub finish_alloc :
      GpuMessage → AllocRequest → GpuReply ℕ → GpuMux B → GpuMux B × GpuMessage
  unfolding free_bytes make_error new_header encode_response
  finish_alloc m req (fault t) s = (
    record s {
      budgets = Assoc.modify ℕ_discrete m.header.vm_id (free_bytes req.size_bytes) s.budgets;
    },
    make_error m 0x21 t,
  )
  finish_alloc m req (ready h) s =
      let payload' = encode_response (record { handle = h; size_bytes = req.size_bytes }) in
      (
        record s { stats = record s.stats { total_allocs = next s.stats.total_allocs } },
        record {
          header =
              new_header MsgType.gpu_alloc_resp m.header.vm_id m.header.seq (length payload')
                m.header.priority;
          payload = payload';
        },
      )

  unfoldable pub alloc_request : GpuMessage → AllocRequest → GpuMux B → GpuMux B × GpuMessage
  unfolding budget_of alloc_bytes finish_alloc make_error
  alloc_request m req s =
      let (b, fits) = alloc_bytes req.size_bytes (budget_of m.header.vm_id s) in
      let charged = Assoc.insert ℕ_discrete m.header.vm_id b s.budgets in
      let (g, r) = alloc_vram s.gpu req.size_bytes req.alignment in
      if fits then finish_alloc m req r (record s { budgets = charged; gpu = g }) else (
        record s {
          budgets = charged;
          stats = record s.stats { rejected_oom = next s.stats.rejected_oom };
        },
        make_error m 0x20 (text 0x20),
      )

  unfoldable pub decoded_alloc : Option AllocRequest → GpuMessage → GpuMux B → GpuMux B × GpuMessage
  unfolding alloc_request make_error
  decoded_alloc none m s = (s, make_error m 0x10 (text 0x10))
  decoded_alloc (some req) m s = alloc_request m req s

  unfoldable pub handle_alloc : GpuMessage → GpuMux B → GpuMux B × GpuMessage
  unfolding decode_alloc decoded_alloc
  handle_alloc m s = decoded_alloc (decode_alloc m.payload) m s

  unfoldable pub finish_free : GpuMessage → GpuReply (Unit {0}) → GpuMux B → GpuMux B × GpuMessage
  unfolding free_bytes make_error make_result from_le
  finish_free m (fault t) s = (s, make_error m 0x31 t)
  finish_free m (ready _) s = (
    record s {
      budgets =
          Assoc.modify ℕ_discrete m.header.vm_id (free_bytes (from_le (take 8 (drop 8 m.payload))))
            s.budgets;
      stats = record s.stats { total_frees = next s.stats.total_frees };
    },
    make_result m [],
  )

  unfoldable pub handle_free : GpuMessage → GpuMux B → GpuMux B × GpuMessage
  unfolding finish_free make_error from_le
  handle_free m s =
      let (g, r) = free_vram s.gpu (from_le (take 8 m.payload)) in
      if ltb (length m.payload) 16
      then (s, make_error m 0x30 (text 0x30))
      else finish_free m r (record s { gpu = g })

  unfoldable pub handle_sync : GpuMessage → GpuMux B → GpuMux B × GpuMessage
  unfolding make_error make_result
  handle_sync m s =
      let (g, r) = sync s.gpu in
      (record s { gpu = g }, elim r [ ready _ ↦ make_result m [] | fault t ↦ make_error m 0x40 t ])

  -- One entry of the channel: the state, and the answer that the worker sends.
  unfoldable pub gpu_worker : GpuMessage → GpuMux B → GpuMux B × GpuMessage
  unfolding record_command make_error make_result
  gpu_worker m s =
      let (g, r) = submit s.gpu m.payload in
      (
        record s { gpu = g; stats = record_command m.header.priority s.stats },
        elim r [ ready bytes ↦ make_result m bytes | fault t ↦ make_error m 0x50 t ],
      )

  -- After a time-out the worker still runs the command.
  unfoldable pub handle_cmd : CmdFate → GpuMessage → GpuMux B → GpuMux B × GpuMessage
  unfolding gpu_worker make_error
  handle_cmd served m s = gpu_worker m s
  handle_cmd channel_closed m s = (s, make_error m 0x01 (text 0x01))
  handle_cmd worker_gone m s = (s, make_error m 0x02 (text 0x02))
  handle_cmd timed_out m s = ((gpu_worker m s).0, make_error m 0x03 (text 0x03))

  -- The answer to a message; the other types have none.
  unfoldable pub respond : CmdFate → MsgType → GpuMessage → GpuMux B → GpuMux B × Option GpuMessage
  unfolding handle_alloc handle_free handle_sync handle_cmd
  respond fate MsgType.gpu_alloc m s = let (t, r) = handle_alloc m s in (t, some r)
  respond fate MsgType.gpu_free m s = let (t, r) = handle_free m s in (t, some r)
  respond fate MsgType.gpu_sync m s = let (t, r) = handle_sync m s in (t, some r)
  respond fate MsgType.gpu_cmd m s = let (t, r) = handle_cmd fate m s in (t, some r)
  respond fate _ m s = (s, none)

  unfoldable pub reply_bytes : Option GpuMessage → List ℕ
  unfolding write_gpu
  reply_bytes none = []
  reply_bytes (some r) = write_gpu r

  -- The loop of a connection, in rounds; every error of the reader ends it.
  unfoldable pub handle_vm_connection : CmdFate → ℕ → List ℕ → GpuMux B → GpuMux B × List ℕ
  unfolding respond reply_bytes read_gpu
  handle_vm_connection fate zero input s = (s, [])
  handle_vm_connection fate (suc rounds) input s = elim (read_gpu input) [
    | bad e ↦ (s, [])
    | got (m, rest) ↦
        let (t, r) = respond fate m.header.msg_type m s in
        let (u, out) = handle_vm_connection fate rounds rest t in (u, reply_bytes r ++ out)
  ]

  -- `submit_raw` of the virgl bridge.
  unfoldable pub submit_raw : List ℕ → Priority → GpuMux B → GpuMux B × GpuReply (List ℕ)
  unfolding record_command
  submit_raw bytes p s =
      let (g, r) = submit s.gpu bytes in
      elim r [
        | fault t ↦ (record s { gpu = g }, fault t)
        | ready out ↦ (record s { gpu = g; stats = record_command p s.stats }, ready out)
      ]

  -- The virgl resources: a description is a command that counts in no statistics.
  unfoldable pub resource_create : List ℕ → GpuMux B → GpuMux B × GpuReply (Unit {0})
  resource_create desc s =
      let (g, r) = submit s.gpu desc in
      (record s { gpu = g }, elim r [ ready _ ↦ ready tt | fault t ↦ fault t ])

  unfoldable pub resource_transfer : List ℕ → GpuMux B → GpuMux B × GpuReply (Unit {0})
  unfolding resource_create
  resource_transfer desc s = resource_create desc s

  unfoldable pub flush_resource : List ℕ → GpuMux B → GpuMux B × GpuReply (Unit {0})
  unfolding resource_create
  flush_resource desc s = resource_create desc s
