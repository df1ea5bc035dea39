-- ===== src/Vcpu/Load.antt =====
-- `VmVcpuState` of omega-daemon/src/vcpu_scheduler.rs and its load signals.
use omega_fusion_core_proxmo.Prelude.{
  ℕ, ◌+◌, ◌-◌, ◌*◌, ◌/◌, min, max, Bool, true, false, not, ◌&&◌, ◌||◌, Option, none, some, List, [],
  ltb, leb, if◌then◌else◌,
}
use omega_fusion_core_proxmo.Vcpu.Grid.{SlotId}

-- The thresholds, in hundredths of a percent, and in seconds.
abbrev pub steal_threshold : ℕ
steal_threshold = 1000

abbrev pub hotplug_trigger : ℕ
hotplug_trigger = 8000

abbrev pub hotplug_stable_secs : ℕ
hotplug_stable_secs = 4

abbrev pub downscale_trigger : ℕ
downscale_trigger = 3500

abbrev pub downscale_stable_secs : ℕ
downscale_stable_secs = 60

abbrev pub donor_safe_steal : ℕ
donor_safe_steal = 500

abbrev pub default_cpu_weight : ℕ
default_cpu_weight = 100

abbrev pub steal_warn_interval_secs : ℕ
steal_warn_interval_secs = 60

pub record VmVcpuState : Type 0 where
  pub vm_id : ℕ
  pub min_vcpus : ℕ
  pub max_vcpus : ℕ
  pub current_vcpus : ℕ
  pub slots : List SlotId
  pub cpu_usage : ℕ
  pub steal : ℕ
  pub cpu_weight : ℕ
  pub local_share_active : Bool
  pub low_load_since : Option ℕ
  pub high_load_since : Option ℕ
  pub updated_at : ℕ
  pub last_steal_warn_at : ℕ

unfoldable pub new_state : ℕ → ℕ → ℕ → ℕ → VmVcpuState
new_state now vm min_vcpus max_vcpus = record {
  vm_id = vm;
  min_vcpus = min_vcpus;
  max_vcpus = max_vcpus;
  current_vcpus = min_vcpus;
  slots = [];
  cpu_usage = 0;
  steal = 0;
  cpu_weight = default_cpu_weight;
  local_share_active = false;
  low_load_since = none;
  high_load_since = none;
  updated_at = now;
  last_steal_warn_at = 0;
}

unfoldable pub at_max_vcpus : VmVcpuState → Bool
at_max_vcpus st = leb st.max_vcpus st.current_vcpus

-- `utilization_pct() >= limit` and `<= limit`, where the utilisation is the usage per vCPU.
unfoldable pub utilization_ge : VmVcpuState → ℕ → Bool
utilization_ge st limit = leb (limit * max st.current_vcpus 1) st.cpu_usage

unfoldable pub utilization_le : VmVcpuState → ℕ → Bool
utilization_le st limit = leb st.cpu_usage (limit * max st.current_vcpus 1)

-- Seconds since a mark; 0 without one.
unfoldable pub since : ℕ → Option ℕ → ℕ
since now none = 0
since now (some started) = now - started

unfoldable pub has_steal_pressure : VmVcpuState → Bool
has_steal_pressure st = leb steal_threshold st.steal

unfoldable pub needs_more_vcpus : ℕ → VmVcpuState → Bool
unfolding at_max_vcpus since utilization_ge has_steal_pressure
needs_more_vcpus now st =
    not (at_max_vcpus st)
    && leb hotplug_stable_secs (since now st.high_load_since)
    && (utilization_ge st hotplug_trigger || has_steal_pressure st)

-- `ceil(usage / DOWNSCALE_TRIGGER_PCT)`, at least 1, then between the minimum and the vCPUs.
unfoldable pub safe_vcpu_floor : VmVcpuState → ℕ
safe_vcpu_floor st =
    let usage_floor = max ((st.cpu_usage + (downscale_trigger - 1)) / downscale_trigger) 1 in
    min (max st.min_vcpus usage_floor) (max st.current_vcpus 1)

unfoldable pub can_downscale : ℕ → VmVcpuState → Bool
unfolding safe_vcpu_floor utilization_le since
can_downscale now st =
    ltb (safe_vcpu_floor st) st.current_vcpus
    && utilization_le st downscale_trigger
    && leb downscale_stable_secs (since now st.low_load_since)

unfoldable pub can_lend_cpu_locally : ℕ → VmVcpuState → Bool
unfolding can_downscale has_steal_pressure
can_lend_cpu_locally now st =
    can_downscale now st
    && leb st.steal donor_safe_steal
    && not (has_steal_pressure st)
    && not st.local_share_active

unfoldable pub needs_local_cpu_share : ℕ → VmVcpuState → Bool
unfolding needs_more_vcpus has_steal_pressure
needs_local_cpu_share now st =
    (needs_more_vcpus now st || has_steal_pressure st) && ltb 0 st.cpu_usage

unfoldable pub vcpu_deficit : VmVcpuState → ℕ
vcpu_deficit st = st.max_vcpus - st.current_vcpus

-- A timer that runs while `b` holds.
unfoldable pub arm : ℕ → Bool → Option ℕ → Option ℕ
arm now false t = none
arm now true none = some now
arm now true (some started) = some started

-- `update_vm_metrics` on the state of one machine.
unfoldable pub update_metrics : ℕ → ℕ → ℕ → VmVcpuState → VmVcpuState
unfolding arm
update_metrics now usage steal st =
    let m = record st { cpu_usage = usage; steal = steal } in
    record m {
      low_load_since =
          arm now (ltb st.min_vcpus st.current_vcpus && utilization_le m downscale_trigger)
            st.low_load_since;
      high_load_since =
          arm now
            (not (at_max_vcpus st)
              && (utilization_ge m hotplug_trigger || leb steal_threshold steal))
            st.high_load_since;
      updated_at = now;
      last_steal_warn_at =
          if has_steal_pressure m
          then (if leb steal_warn_interval_secs (now - st.last_steal_warn_at)
              then now
              else st.last_steal_warn_at)
          else 0;
    }
