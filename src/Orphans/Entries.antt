-- ===== src/Orphans/Entries.antt =====
-- The record of the absent machines through one pass of the orphan cleaner.
use omega_fusion_core_proxmo.Prelude.{
  ℕ, ◌-◌, ◌≤◌, ◌≡◌, ◌≢◌, ◌⊎◌, sym, ◌∙◌, true, false, none, some, List, [], ◌∷◌, arith, lookup, leb,
  if◌then◌else◌, ℕ_discrete, Option-cases, Bool-cases, inl, inr,
}
use omega_fusion_core_proxmo.Prelude.Assoc.{contains_key, Distinct, lookup-insert, insert-Distinct}
use omega_fusion_core_proxmo.Store.Map.{select-Distinct}
use omega_fusion_core_proxmo.Orphans.{
  Absences, contains, still_absent, or_insert, note_absent, expired,
}

-- A machine's entry survives `retain` when Proxmox does not list the machine.
pub lookup-still_absent :
    (cluster : List ℕ) (v : ℕ) (m : Absences)
    → lookup ℕ_discrete v (still_absent cluster m)
      ≡ (if contains v cluster then none else lookup ℕ_discrete v m)
unfolding still_absent lookup ℕ_discrete
lookup-still_absent cluster v [] = ground arith
lookup-still_absent cluster v (e ∷ m) = ground (arith, lookup-still_absent cluster v m)

or_insert-some :
    (v u now t : ℕ) (m : Absences)
    → lookup ℕ_discrete v m ≡ some t
    → lookup ℕ_discrete v (or_insert u now m) ≡ some t
unfolding or_insert contains_key
or_insert-some v u now t m h = ground (arith, lookup-insert ℕ_discrete u v now m)

or_insert-new :
    (v u now t : ℕ) (m : Absences)
    → lookup ℕ_discrete v (or_insert u now m) ≡ some t
    → lookup ℕ_discrete v m ≢ some t
    → (t ≡ now) × (u ≡ v)
unfolding or_insert contains_key
or_insert-new v u now t m h n = ground (arith, lookup-insert ℕ_discrete u v now m)

pub note_absent-some :
    (cluster : List ℕ) (now v t : ℕ) (ids : List ℕ) (m : Absences)
    → lookup ℕ_discrete v m ≡ some t
    → lookup ℕ_discrete v (note_absent cluster now ids m) ≡ some t
unfolding note_absent
note_absent-some cluster now v t [] m h = h
note_absent-some cluster now v t (u ∷ ids) m h =
    note_absent-some cluster now v t ids (if contains u cluster then m else or_insert u now m)
      (ground (arith, or_insert-some v u now t m h))

-- An entry that was not there before is of a machine that is not listed, and of this pass.
note_absent-new :
    (cluster : List ℕ) (now v t : ℕ) (ids : List ℕ) (m : Absences)
    → lookup ℕ_discrete v (note_absent cluster now ids m) ≡ some t
    → lookup ℕ_discrete v m ≢ some t
    → (t ≡ now) × (contains v cluster ≡ false)
unfolding note_absent
note_absent-new cluster now v t [] m h n = absurd (n h)
note_absent-new cluster now v t (u ∷ ids) m h n =
    let step = if contains u cluster then m else or_insert u now m in
    elim (Option-cases (lookup ℕ_discrete v step)) [
      | inl absent ↦ note_absent-new cluster now v t ids step h (λ e. cc)
      | inr (w, there) ↦
          let kept = note_absent-some cluster now v w ids step there in
          let same : lookup ℕ_discrete v step ≡ some t = there ∙ sym kept ∙ h in
          elim (Bool-cases (contains u cluster)) [
            | inl listed ↦ absurd (n (ground arith))
            | inr missing ↦
                let (this_pass, this_vm) = or_insert-new v u now t m (ground arith) n in
                (this_pass, ground arith)
          ]
    ]

still_absent-Distinct :
    (cluster : List ℕ) (m : Absences)
    → Distinct ℕ_discrete m
    → Distinct ℕ_discrete (still_absent cluster m)
unfolding still_absent
still_absent-Distinct cluster m d = select-Distinct ℕ_discrete _ m d

note_absent-Distinct :
    (cluster : List ℕ) (now : ℕ) (ids : List ℕ) (m : Absences)
    → Distinct ℕ_discrete m
    → Distinct ℕ_discrete (note_absent cluster now ids m)
unfolding note_absent or_insert
note_absent-Distinct cluster now [] m d = d
note_absent-Distinct cluster now (u ∷ ids) m d =
    note_absent-Distinct cluster now ids (if contains u cluster then m else or_insert u now m)
      (ground (arith, d, insert-Distinct ℕ_discrete u now m d))

pub expired-contains :
    (grace now v t : ℕ) (m : Absences)
    → lookup ℕ_discrete v m ≡ some t
    → leb grace (now - t) ≡ true
    → contains v (expired grace now m) ≡ true
unfolding expired lookup contains ℕ_discrete
expired-contains grace now v t [] h g = cc
expired-contains grace now v t (e ∷ m) h g = ground (arith, expired-contains grace now v t m)

expired-some :
    (grace now v : ℕ) (m : Absences)
    → Distinct ℕ_discrete m
    → contains v (expired grace now m) ≡ true
    → (t : ℕ) × (lookup ℕ_discrete v m ≡ some t) × (grace ≤ now - t)
unfolding expired lookup contains ℕ_discrete
expired-some grace now v [] d h = cc
expired-some grace now v (e ∷ m) d h = elim (ℕ_discrete v e.0) [
  | yes here ↦ elim (Bool-cases (leb grace (now - e.1))) [
    | inl old ↦ (e.1, ground arith, ground arith)
    | inr young ↦
        let (t, found, _) = expired-some grace now v m d.1 (ground arith) in absurd (ground arith)
  ]
  | no there ↦
      let (t, found, old) = expired-some grace now v m d.1 (ground arith) in (t, ground arith, old)
]

-- An expired machine that is not listed was recorded in an earlier pass, or in this one.
pub expired_entry :
    (grace now v : ℕ) (cluster ids : List ℕ) (m : Absences)
    → Distinct ℕ_discrete m
    → contains v (expired grace now (note_absent cluster now ids (still_absent cluster m))) ≡ true
    → (contains v cluster ≡ false)
      × (t : ℕ) × (grace ≤ now - t)
      × ((lookup ℕ_discrete v m ≡ some t) ⊎ (t ≡ now))
expired_entry grace now v cluster ids m d h =
    let kept = still_absent cluster m in
    let (t, found, old) =
      expired-some grace now v (note_absent cluster now ids kept)
        (note_absent-Distinct cluster now ids kept (still_absent-Distinct cluster m d)) h in
    elim (Option-cases (lookup ℕ_discrete v kept)) [
      | inl absent ↦
          let (this_pass, missing) = note_absent-new cluster now v t ids kept found (λ e. cc) in
          (missing, t, old, inr this_pass)
      | inr (w, there) ↦
          let same : some w ≡ some t =
            sym (note_absent-some cluster now v w ids kept there) ∙ found in
          (
            ground (arith, lookup-still_absent cluster v m),
            t,
            old,
            inl (ground (arith, lookup-still_absent cluster v m)),
          )
    ]
