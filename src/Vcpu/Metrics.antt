-- ===== src/Vcpu/Metrics.antt =====
-- The load of the machines in omega-daemon/src/vcpu_scheduler.rs, and the lists that the local
-- sharing of CPU walks. `sort_by` is stable; `local_share_borrowers` and its peers take the machines
-- in the order of the map.
use omega_fusion_core_proxmo.Prelude.{
  ℕ, ◌-◌, Bool, not, ◌&&◌, ◌||◌, List, [], ◌∷◌, ltb, ◌==◌, if◌then◌else◌, select, map, ℕ_discrete,
}
use omega_fusion_core_proxmo.Prelude.Assoc
use omega_fusion_core_proxmo.Prelude.Assoc.{values}
use omega_fusion_core_proxmo.Vcpu.Load.{
  VmVcpuState, update_metrics, needs_local_cpu_share, can_lend_cpu_locally, vcpu_deficit,
  safe_vcpu_floor, since, utilization_le, downscale_trigger,
}
use omega_fusion_core_proxmo.Vcpu.{VcpuScheduler}

unfoldable pub update_vm_metrics : ℕ → ℕ → ℕ → ℕ → VcpuScheduler → VcpuScheduler
update_vm_metrics now vm usage steal s = record s {
  vms = Assoc.modify ℕ_discrete vm (update_metrics now usage steal) s.vms;
}

-- `throttle` is the ratio in units of 1/10000, a hundredth of which is a percentage point here too.
unfoldable pub update_from_cgroup : ℕ → ℕ → ℕ → ℕ → VcpuScheduler → VcpuScheduler
unfolding update_vm_metrics
update_from_cgroup now vm usage throttle s = update_vm_metrics now vm usage throttle s

unfoldable pub insert_by :
    (VmVcpuState → VmVcpuState → Bool) → VmVcpuState → List VmVcpuState → List VmVcpuState
insert_by less x [] = x ∷ []
insert_by less x (y ∷ ys) = if less y x then y ∷ insert_by less x ys else x ∷ y ∷ ys

unfoldable pub sort_by : (VmVcpuState → VmVcpuState → Bool) → List VmVcpuState → List VmVcpuState
unfolding insert_by
sort_by less [] = []
sort_by less (x ∷ xs) = insert_by less x (sort_by less xs)

-- The smallest deficit first, then the most steal, then the most usage.
unfoldable pub borrower_before : VmVcpuState → VmVcpuState → Bool
unfolding vcpu_deficit
borrower_before a b =
    ltb (vcpu_deficit a) (vcpu_deficit b)
    || vcpu_deficit a == vcpu_deficit b
      && (ltb b.steal a.steal || b.steal == a.steal && ltb b.cpu_usage a.cpu_usage)

unfoldable pub local_share_borrowers : ℕ → VcpuScheduler → List ℕ
unfolding sort_by
local_share_borrowers now s =
    map (λ st. st.vm_id)
      (sort_by borrower_before (select (needs_local_cpu_share now) (values s.vms)))

unfoldable pub spare_vcpus : VmVcpuState → ℕ
spare_vcpus st = st.current_vcpus - safe_vcpu_floor st

-- The most spare vCPUs first, then the longest low load, then the least usage.
unfoldable pub donor_before : ℕ → VmVcpuState → VmVcpuState → Bool
unfolding spare_vcpus since
donor_before now a b =
    ltb (spare_vcpus b) (spare_vcpus a)
    || spare_vcpus b == spare_vcpus a
      && (ltb (since now b.low_load_since) (since now a.low_load_since)
          || since now b.low_load_since == since now a.low_load_since
            && ltb a.cpu_usage b.cpu_usage)

unfoldable pub local_share_donors : ℕ → VcpuScheduler → List ℕ
unfolding sort_by
local_share_donors now s =
    map (λ st. st.vm_id)
      (sort_by (donor_before now) (select (can_lend_cpu_locally now) (values s.vms)))

unfoldable pub peer_before : ℕ → VmVcpuState → VmVcpuState → Bool
unfolding since
peer_before now a b =
    ltb (since now b.low_load_since) (since now a.low_load_since)
    || since now b.low_load_since == since now a.low_load_since && ltb a.cpu_usage b.cpu_usage

unfoldable pub local_share_idle_peers : ℕ → VcpuScheduler → List ℕ
unfolding sort_by
local_share_idle_peers now s =
    map (λ st. st.vm_id)
      (sort_by (peer_before now) (
        select (λ st. utilization_le st downscale_trigger && not (needs_local_cpu_share now st))
          (values s.vms)))
