-- ===== src/Quota/Budget.antt =====
-- The registry of quotas (omega-daemon/src/quota.rs) under the requests of the daemon, with `set_quota`
-- of omega-daemon/src/control_api.rs: remote use against the remote budget, and the budgets against
-- the last setting.
use omega_fusion_core_proxmo.Prelude.{
  inr, ◌∷◌, [], All, inl, Option, none, some, Bool-cases, List, ℕ, ◌^◌, ◌≤◌, ◌<◌, ◌≡◌, true, arith,
  ℕ_discrete, ite, refl, sym, ◌∙◌, ap, ◌-◌, lookup, if◌then◌else◌,
}
use mathlib.Core.Option
use omega_fusion_core_proxmo.Prelude.Assoc
use omega_fusion_core_proxmo.Prelude.Assoc.{
  lookup-modify, lookup-insert, lookup-remove, lookup-AllValues, modify-AllValues,
  modify-AllValues_at, remove-AllValues, insert-AllValues, AllValues,
}
use omega_fusion_core_proxmo.Quota.{
  quota_of, VmQuota, new_quota, Registry, set, remove_quota, check_quota, check_put, is_allowed,
  record_put, add_used, record_delete, sub_used, record_delete_vm, clear_used,
}

-- A remote budget below 2^63 keeps the sums of the check from wrapping.
pub record IsWithin (q : VmQuota) : Type 0 where
  pub small : q.remote_budget_mib < 2 ^ 63
  pub used : q.remote_used_mib ≤ q.remote_budget_mib

abbrev pub AllWithin : Registry → Type 0
AllWithin = AllValues ℕ_discrete IsWithin

-- What the daemon asks of the registry, but for the balloon. A page is stored only after the check.
pub data Request : Type 0 where
  configure : (vm max_mem local : ℕ) → (remote : Option ℕ) → Request
  forget : (vm : ℕ) → Request
  store_page : (vm size : ℕ) → Request
  delete_page : (vm size : ℕ) → Request
  delete_all : (vm : ℕ) → Request

-- `set_quota`: a remote budget in the request takes the place of the computed one.
unfoldable pub requested_quota : ℕ → ℕ → ℕ → ℕ → Option ℕ → VmQuota
unfolding new_quota
requested_quota now vm max_mem local none = new_quota now vm max_mem local
requested_quota now vm max_mem local (some remote) = record (new_quota now vm max_mem local) {
  remote_budget_mib = remote;
}

unfoldable pub handle : ℕ → Request → Registry → Registry
unfolding requested_quota
handle now (configure vm max_mem local remote) r =
    set (requested_quota now vm max_mem local remote) r
handle now (forget vm) r = remove_quota vm r
handle now (store_page vm size) r =
    if is_allowed (check_put r vm size) then record_put now vm size r else r
handle now (delete_page vm size) r = record_delete vm size r
handle now (delete_all vm) r = record_delete_vm vm r

abbrev pub IsSmall : Request → Type 0
IsSmall (configure vm max_mem local none) = max_mem < 2 ^ 63
IsSmall (configure vm max_mem local (some remote)) = remote < 2 ^ 63
IsSmall (store_page vm size) = size < 2 ^ 53
IsSmall _ = Unit {0}

requested_quota-IsWithin :
    (now vm m l : ℕ) (o : Option ℕ)
    → IsSmall (configure vm m l o)
    → IsWithin (requested_quota now vm m l o)
unfolding requested_quota new_quota
requested_quota-IsWithin now vm m l none h = ground arith
requested_quota-IsWithin now vm m l (some remote) h = ground arith

add_used-IsWithin :
    (now size : ℕ) (q : VmQuota)
    → size < 2 ^ 53
    → is_allowed (check_quota q size) ≡ true
    → IsWithin q
    → IsWithin (add_used now size q)
unfolding add_used check_quota is_allowed
add_used-IsWithin now size q h a v = ground arith

sub_used-IsWithin : (size : ℕ) (q : VmQuota) → IsWithin q → IsWithin (sub_used size q)
unfolding sub_used
sub_used-IsWithin size q v = omega (arith, v.small, v.used)

clear_used-IsWithin : (q : VmQuota) → IsWithin q → IsWithin (clear_used q)
unfolding clear_used
clear_used-IsWithin q v = omega (arith, v.small, v.used)

checked :
    (r : Registry) (vm size : ℕ) (q : VmQuota)
    → quota_of r vm ≡ some q
    → is_allowed (check_put r vm size) ≡ true
    → is_allowed (check_quota q size) ≡ true
unfolding check_put
checked r vm size q found h = rw (found, check_put) at h

store_page-AllWithin :
    (now vm size : ℕ) (r : Registry)
    → size < 2 ^ 53
    → AllWithin r
    → AllWithin (if is_allowed (check_put r vm size) then record_put now vm size r else r)
unfolding record_put
store_page-AllWithin now vm size r h a = elim (Bool-cases (is_allowed (check_put r vm size))) [
  | inl passes ↦ rw passes (
      modify-AllValues_at ℕ_discrete IsWithin vm (add_used now size) r
        (λ q found v. add_used-IsWithin now size q h (checked r vm size q found passes) v) a)
  | inr fails ↦ rw fails a
]

-- One request (a quota with a remote budget below 2^63 MiB set or removed, a page of less than 2^53 bytes
-- recorded if `check_put` allows it, a deletion) keeps every machine of a registry within its
-- quota.
pub handle-AllWithin :
    (now : ℕ) (c : Request) (r : Registry) → IsSmall c → AllWithin r → AllWithin (handle now c r)
unfolding handle set remove_quota record_delete record_delete_vm
handle-AllWithin now (configure vm m l o) r h a =
    insert-AllValues ℕ_discrete IsWithin _ _ r (requested_quota-IsWithin now vm m l o h) a
handle-AllWithin now (forget vm) r h a = remove-AllValues ℕ_discrete IsWithin vm r a
handle-AllWithin now (store_page vm size) r h a = store_page-AllWithin now vm size r h a
handle-AllWithin now (delete_page vm size) r h a =
    modify-AllValues ℕ_discrete IsWithin vm (sub_used size) r (sub_used-IsWithin size) a
handle-AllWithin now (delete_all vm) r h a =
    modify-AllValues ℕ_discrete IsWithin vm clear_used r clear_used-IsWithin a

unfoldable pub run : List (ℕ × Request) → Registry → Registry
run [] r = r
run ((now, c) ∷ cs) r = run cs (handle now c r)

run-keeps :
    (cs : List (ℕ × Request)) (r : Registry)
    → All (λ c. IsSmall c.1) cs
    → AllWithin r
    → AllWithin (run cs r)
unfolding run
run-keeps [] r s a = a
run-keeps ((now, c) ∷ cs) r s a = run-keeps cs (handle now c r) s.1 (handle-AllWithin now c r s.0 a)

-- The budgets of one machine: its memory, its local budget and its remote budget.
pub record Setting : Type 0 where
  pub max_mem : ℕ
  pub local : ℕ
  pub remote : ℕ

abbrev pub setting_of : VmQuota → Setting
setting_of q = record {
  max_mem = q.max_mem_mib;
  local = q.local_budget_mib;
  remote = q.remote_budget_mib;
}

abbrev pub requested : ℕ → ℕ → Option ℕ → Setting
requested m l none = record { max_mem = m; local = l; remote = m - l }
requested m l (some remote) = record { max_mem = m; local = l; remote = remote }

-- What the last setting in a history asked for a machine, unless its quota was removed since.
abbrev pub last_setting : List (ℕ × Request) → ℕ → Option Setting → Option Setting
last_setting [] vm o = o
last_setting ((now, configure v m l remote) ∷ cs) vm o =
    last_setting cs vm (ite (ℕ_discrete vm v) (some (requested m l remote)) o)
last_setting ((now, forget v) ∷ cs) vm o = last_setting cs vm (ite (ℕ_discrete vm v) none o)
last_setting (_ ∷ cs) vm o = last_setting cs vm o

abbrev pub held : Registry → ℕ → Option Setting
held r vm = Option.map setting_of (quota_of r vm)

-- A change that leaves the budgets alone.
modify-held :
    (v vm : ℕ) (f : VmQuota → VmQuota) (r : Registry)
    → ((q : VmQuota) → setting_of (f q) ≡ setting_of q)
    → held (Assoc.modify ℕ_discrete v f r) vm ≡ held r vm
modify-held v vm f r h =
    ap (Option.map setting_of) (lookup-modify ℕ_discrete v vm f r)
    ∙ unchanged (ℕ_discrete vm v) (lookup ℕ_discrete vm r)
  where
    unchanged :
        {P : Type 0} (d : Dec P) (o : Option VmQuota)
        → Option.map setting_of (ite d (Option.map f o) o) ≡ Option.map setting_of o
    unchanged (yes same) none = refl
    unchanged (yes same) (some q) = ap some (h q)
    unchanged (no other) o = refl

setting_of-ite :
    {P : Type 0} (d : Dec P) (o u : Option VmQuota)
    → Option.map setting_of (ite d o u) ≡ ite d (Option.map setting_of o) (Option.map setting_of u)
setting_of-ite (yes same) o u = refl
setting_of-ite (no other) o u = refl

set_at-held :
    (q : VmQuota) (v vm : ℕ) (t : Setting) (r : Registry)
    → setting_of q ≡ t
    → held (Assoc.insert ℕ_discrete v q r) vm ≡ ite (ℕ_discrete vm v) (some t) (held r vm)
set_at-held q v vm t r e =
    ap (Option.map setting_of) (lookup-insert ℕ_discrete v vm q r)
    ∙ setting_of-ite (ℕ_discrete vm v) (some q) (lookup ℕ_discrete vm r)
    ∙ ap (λ (t : Setting). ite (ℕ_discrete vm v) (some t) (held r vm)) e

set-held :
    (now v m l : ℕ) (o : Option ℕ) (vm : ℕ) (r : Registry)
    → held (set (requested_quota now v m l o) r) vm
      ≡ ite (ℕ_discrete vm v) (some (requested m l o)) (held r vm)
unfolding set requested_quota new_quota
set-held now v m l none vm r = set_at-held _ v vm _ r refl
set-held now v m l (some remote) vm r = set_at-held _ v vm _ r refl

run-held :
    (cs : List (ℕ × Request)) (vm : ℕ) (r : Registry)
    → held (run cs r) vm ≡ last_setting cs vm (held r vm)
unfolding run handle set remove_quota record_delete record_delete_vm sub_used clear_used record_put
    add_used
run-held [] vm r = refl
run-held ((now, configure v m l o) ∷ cs) vm r =
    run-held cs vm _ ∙ ap (last_setting cs vm) (set-held now v m l o vm r)
run-held ((now, forget v) ∷ cs) vm r =
    run-held cs vm _
    ∙ ap (last_setting cs vm) (
        ap (Option.map setting_of) (lookup-remove ℕ_discrete v vm r)
        ∙ setting_of-ite (ℕ_discrete vm v) none (lookup ℕ_discrete vm r))
run-held ((now, store_page v size) ∷ cs) vm r =
    run-held cs vm _
    ∙ ap (last_setting cs vm) (elim (Bool-cases (is_allowed (check_put r v size))) [
      | inl passes ↦ rw passes (modify-held v vm (add_used now size) r (λ q. refl))
      | inr fails ↦ rw fails refl
    ])
run-held ((now, delete_page v size) ∷ cs) vm r =
    run-held cs vm _ ∙ ap (last_setting cs vm) (modify-held v vm (sub_used size) r (λ q. refl))
run-held ((now, delete_all v) ∷ cs) vm r =
    run-held cs vm _ ∙ ap (last_setting cs vm) (modify-held v vm clear_used r (λ q. refl))

-- After any history of quota settings by `set_quota` (the memory, or the remote budget where the
-- request names one, below 2^63 MiB) and removals, page stores that are recorded only if
-- `check_put` allows them (sizes below 2^53), page deletions and machine deletions, a machine's
-- remote use is at most its remote budget, and its memory, local and remote budgets are those that
-- its last setting asked for, with no removal since; a setting that names no remote budget asks for
-- the memory less the local budget.
pub run-AllWithin :
    (cs : List (ℕ × Request)) (vm : ℕ) (q : VmQuota)
    → All (λ c. IsSmall c.1) cs
    → quota_of (run cs []) vm ≡ some q
    → (q.remote_used_mib ≤ q.remote_budget_mib) × (last_setting cs vm none ≡ some (setting_of q))
unfolding lookup
run-AllWithin cs vm q small found = (
  (lookup-AllValues ℕ_discrete IsWithin vm q (run cs []) (run-keeps cs [] small tt) found).used,
  sym (run-held cs vm []) ∙ rw found refl,
)
