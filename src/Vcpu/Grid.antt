-- ===== src/Vcpu/Grid.antt =====
-- The slots of omega-daemon/src/vcpu_scheduler.rs: a row of `VCPU_PER_PCPU` slots for each pCPU.
use omega_fusion_core_proxmo.Prelude.{
  ℕ, zero, suc, ◌+◌, ◌-◌, Bool, true, false, not, Option, none, some, List, [], ◌∷◌, ◌++◌, ltb,
  ◌==◌, if◌then◌else◌, length, select, replicate,
}

abbrev pub vcpu_per_pcpu : ℕ
vcpu_per_pcpu = 3

abbrev pub max_vms_per_slot : ℕ
max_vms_per_slot = 3

pub record SlotId : Type 0 where
  pub pcpu : ℕ
  pub slot : ℕ

-- `PcpuSlot`: the machines that share the slot.
abbrev pub PcpuSlot : Type 0
PcpuSlot = List ℕ

abbrev pub Slots : Type 0
Slots = List (List PcpuSlot)

unfoldable pub can_accept : PcpuSlot → Bool
can_accept s = ltb (length s) max_vms_per_slot

-- `HashSet::insert` and `remove`.
unfoldable pub contains_vm : ℕ → PcpuSlot → Bool
contains_vm vm [] = false
contains_vm vm (x ∷ xs) = if x == vm then true else contains_vm vm xs

unfoldable pub add_vm : ℕ → PcpuSlot → PcpuSlot
unfolding contains_vm
add_vm vm s = if contains_vm vm s then s else vm ∷ s

unfoldable pub drop_vm : ℕ → PcpuSlot → PcpuSlot
drop_vm vm s = select (λ x. not (x == vm)) s

unfoldable pub empty_slots : ℕ → Slots
empty_slots n = replicate n (replicate vcpu_per_pcpu [])

unfoldable pub at_index : ℕ → (PcpuSlot → PcpuSlot) → List PcpuSlot → List PcpuSlot
at_index i f [] = []
at_index zero f (s ∷ row) = f s ∷ row
at_index (suc i) f (s ∷ row) = s ∷ at_index i f row

-- `slots[pcpu][slot]` changed in place.
unfoldable pub at_cell : ℕ → ℕ → (PcpuSlot → PcpuSlot) → Slots → Slots
unfolding at_index
at_cell p i f [] = []
at_cell zero i f (row ∷ rows) = at_index i f row ∷ rows
at_cell (suc p) i f (row ∷ rows) = row ∷ at_cell p i f rows

abbrev pub at_slot : SlotId → (PcpuSlot → PcpuSlot) → Slots → Slots
at_slot sid f rows = at_cell sid.pcpu sid.slot f rows

unfoldable pub drop_all : ℕ → List SlotId → Slots → Slots
drop_all vm [] rows = rows
drop_all vm (sid ∷ ids) rows = drop_all vm ids (at_slot sid (drop_vm vm) rows)

-- The inner loop of `admit_vm`: at most `need` slots of the row, from slot `i` on.
unfoldable pub alloc_row : ℕ → ℕ → ℕ → ℕ → List PcpuSlot → List PcpuSlot × List SlotId
alloc_row vm need p i [] = ([], [])
alloc_row vm zero p i (s ∷ row) = (s ∷ row, [])
alloc_row vm (suc need) p i (s ∷ row) =
    let taken = alloc_row vm need p (i + 1) row in
    let passed = alloc_row vm (suc need) p (i + 1) row in
    if can_accept s
    then (add_vm vm s ∷ taken.0, record { pcpu = p; slot = i } ∷ taken.1)
    else (s ∷ passed.0, passed.1)

-- The outer loop, from pCPU `p` on.
unfoldable pub alloc_rows : ℕ → ℕ → ℕ → Slots → Slots × List SlotId
alloc_rows vm need p [] = ([], [])
alloc_rows vm need p (row ∷ rows) =
    let (row', ids) = alloc_row vm need p 0 row in
    let (rows', more) = alloc_rows vm (need - length ids) (p + 1) rows in
    (row' ∷ rows', ids ++ more)

unfoldable pub row_of : ℕ → Slots → List PcpuSlot
row_of p [] = []
row_of zero (row ∷ rows) = row
row_of (suc p) (row ∷ rows) = row_of p rows

-- The first slot of a row that can take a machine.
unfoldable pub find_in_row : ℕ → ℕ → List PcpuSlot → Option SlotId
find_in_row p i [] = none
find_in_row p i (s ∷ row) =
    let later = find_in_row p (i + 1) row in
    if can_accept s then some (record { pcpu = p; slot = i }) else later

-- The search of `try_hotplug`, pCPU by pCPU.
unfoldable pub find_slot : List ℕ → Slots → Option SlotId
find_slot [] rows = none
find_slot (p ∷ order) rows = elim (find_in_row p 0 (row_of p rows)) [
  | some sid ↦ some sid
  | none ↦ find_slot order rows
]

unfoldable pub free_in_row : List PcpuSlot → ℕ
free_in_row row = length (select can_accept row)

unfoldable pub free_vslots : Slots → ℕ
unfolding free_in_row
free_vslots [] = 0
free_vslots (row ∷ rows) = free_in_row row + free_vslots rows
