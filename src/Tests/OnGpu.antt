-- ===== src/Tests/OnGpu.antt =====
-- Machines at the GPU multiplexer, with a physical GPU that has no memory left or always answers.
use omega_fusion_core_proxmo.Prelude.{
  ℕ, suc, ◌≡◌, refl, some, List, [], ◌∷◌, ◌++◌, arith, lookup, ℕ_discrete,
}
use omega_fusion_core_proxmo.Gpu.{
  MsgType, Priority, GpuMessage, AllocRequest, got, new_header, read_gpu, write_gpu, encode_alloc,
}
use omega_fusion_core_proxmo.Gpu.Endian.{to_le, from_le}
use omega_fusion_core_proxmo.Gpu.Frames.{IsHeader, read_gpu-write_gpu}
use omega_fusion_core_proxmo.Gpu.Mux.{
  VmVramBudget, mib_of, GpuBackend, GpuMux, GpuMuxStats, ready, served, handle_free,
}
use omega_fusion_core_proxmo.Gpu.Vram.{
  GpuEvent, configured, released, message, AllWithin, after_events, after_events-AllWithin,
  handle_free-resets,
}

abbrev pub texts : ℕ → List ℕ
texts code = code ∷ []

-- A GPU that counts what it gives out.
abbrev pub counting_gpu : GpuBackend ℕ
counting_gpu = record {
  submit = λ n bytes. (suc n, ready bytes);
  alloc_vram = λ n size alignment. (suc n, ready n);
  free_vram = λ n handle. (n, ready tt);
  sync = λ n. (n, ready tt);
}

abbrev no_commands : GpuMuxStats
no_commands = record {
  total_commands = 0;
  low_priority_commands = 0;
  normal_priority_commands = 0;
  high_priority_commands = 0;
  realtime_priority_commands = 0;
  total_allocs = 0;
  total_frees = 0;
  rejected_oom = 0;
}

abbrev of_seven : VmVramBudget
of_seven = record { vm_id = 7; budget_mib = 64; used_mib = 10; handle_count = 2 }

abbrev pub one_machine : GpuMux ℕ
one_machine = record { budgets = (7, of_seven) ∷ []; stats = no_commands; gpu = 0 }

abbrev two_mib : AllocRequest
two_mib = record { size_bytes = 2097152; alignment = 4096 }

abbrev wish : GpuMessage
wish = record {
  header = new_header MsgType.gpu_alloc 7 1 12 Priority.high;
  payload = encode_alloc two_mib;
}

-- Handle 3, said to be of 16 MiB.
abbrev greedy_free : GpuMessage
greedy_free = record {
  header = new_header MsgType.gpu_free 7 2 16 Priority.normal;
  payload = to_le 8 3 ++ to_le 8 16777216;
}

wish-IsHeader : IsHeader wish.header
unfolding new_header
wish-IsHeader = record {
  magic_word = refl;
  version_byte = refl;
  vm_id_u32 = omega arith;
  seq_u32 = omega arith;
  payload_len_u32 = omega arith;
}

read_gpu-write_gpu_example : read_gpu (write_gpu wish ++ 9 ∷ []) ≡ got (wish, 9 ∷ [])
unfolding new_header encode_alloc to_le
read_gpu-write_gpu_example = read_gpu-write_gpu wish (9 ∷ []) wish-IsHeader refl

abbrev gpu_day : List GpuEvent
gpu_day = configured 8 32 ∷ message served wish ∷ message served greedy_free ∷ released 7 ∷ []

after_events-AllWithin_example : AllWithin (after_events counting_gpu texts one_machine gpu_day)
after_events-AllWithin_example =
    after_events-AllWithin counting_gpu texts gpu_day one_machine (omega arith, tt)

handle_free-resets_example :
    lookup ℕ_discrete 7 (handle_free counting_gpu texts greedy_free one_machine).0.budgets
    ≡ some (record of_seven { used_mib = 0; handle_count = 1 })
unfolding new_header to_le from_le lookup ℕ_discrete mib_of
handle_free-resets_example =
    handle_free-resets counting_gpu texts greedy_free one_machine of_seven refl (omega arith) refl
      (omega arith)
