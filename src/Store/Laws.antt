-- ===== src/Store/Laws.antt =====
-- The store against its specification, a partial function from keys to bytes.
use mathlib.Core.Option
use omega_fusion_core_proxmo.Prelude.{
  Member, length, ◌↔◌, ap, ℕ, ◌≡◌, ◌≢◌, ◌⊎◌, refl, Bool, true, false, List, [], ◌∷◌, arith, All,
  Option, none, some, lookup, ◌==◌, if◌then◌else◌, ite, select, Option-cases, inl, inr, Bool-cases,
}
use omega_fusion_core_proxmo.Prelude.Assoc.{
  keys, Distinct, contains_key, lookup-insert, lookup-remove, lookup-modify,
}
use omega_fusion_core_proxmo.Store.Map.{remove_all, lookup-remove_all_ne, lookup-remove_all-some}
use omega_fusion_core_proxmo.Wire.{page_size}
use omega_fusion_core_proxmo.Store.{
  PageKey, PageKey-discrete, PageStore, Pages, PutResult, stored, wrong_size, find, put, get,
  delete, delete_vm, keys_for_vm,
}

pub data Command : Type 0 where
  puts : PageKey → List ℕ → Command
  gets : PageKey → Command
  deletes : PageKey → Command
  deletes_vm : ℕ → Command

pub data Reply : Type 0 where
  put_reply : PutResult → Reply
  get_reply : Option (List ℕ) → Reply
  delete_reply : Bool → Reply
  count_reply : ℕ → Reply

-- One operation of the store at a time `now`.
unfoldable pub execute : ℕ → PageStore → Command → PageStore × Reply
execute now s (puts k bytes) = let (t, r) = put s k bytes now in (t, put_reply r)
execute now s (gets k) = let (t, r) = get s k now in (t, get_reply r)
execute now s (deletes k) = let (t, r) = delete s k in (t, delete_reply r)
execute now s (deletes_vm vm) = let (t, r) = delete_vm s vm in (t, count_reply r)

abbrev pub Spec : Type 0
Spec = PageKey → Option (List ℕ)

abbrev pub view : PageStore → Spec
view s q = Option.map (λ e. e.0) (find q s.pages)

abbrev pub is_some {ℓ} : {A : Type ℓ} → Option A → Bool
is_some none = false
is_some (some _) = true

abbrev pub spec_state : Spec → Command → Spec
spec_state f (puts k bytes) q =
    if length bytes == page_size then ite (PageKey-discrete q k) (some bytes) (f q) else f q
spec_state f (gets k) q = f q
spec_state f (deletes k) q = ite (PageKey-discrete q k) none (f q)
spec_state f (deletes_vm vm) q = if q.vm_id == vm then none else f q

-- No key stands twice.
abbrev pub NoRepeat : List PageKey → Type 0
NoRepeat [] = Unit {0}
NoRepeat (k ∷ ks) = All (λ j. k ≢ j) ks × NoRepeat ks

-- The keys of a machine that the partial function is defined at are `n` in number.
abbrev pub HasCount : Spec → ℕ → ℕ → Type 0
HasCount f vm n =
    (ks : List PageKey) × NoRepeat ks
    × ((q : PageKey) → Member q ks ↔ ((q.vm_id ≡ vm) × (is_some (f q) ≡ true)))
    × (length ks ≡ n)

abbrev pub MatchesReply : Spec → Command → Reply → Type 0
MatchesReply f (puts k bytes) r =
    r
    ≡ put_reply
        (if length bytes == page_size then stored (is_some (f k)) else wrong_size (length bytes))
MatchesReply f (gets k) r = r ≡ get_reply (f k)
MatchesReply f (deletes k) r = r ≡ delete_reply (is_some (f k))
MatchesReply f (deletes_vm vm) r = (n : ℕ) × (r ≡ count_reply n) × HasCount f vm n

put-view :
    (now : ℕ) (s : PageStore) (k : PageKey) (bytes : List ℕ) (q : PageKey)
    → view (put s k bytes now).0 q ≡ spec_state (view s) (puts k bytes) q
unfolding put
put-view now s k bytes q = ground (arith, lookup-insert PageKey-discrete k q (bytes, now) s.pages)

get-view : (now : ℕ) (s : PageStore) (k q : PageKey) → view (get s k now).0 q ≡ view s q
unfolding get
get-view now s k q = ground (arith, lookup-modify PageKey-discrete k q (λ e. (e.0, now)) s.pages)

delete-view :
    (s : PageStore) (k q : PageKey)
    → view (delete s k).0 q ≡ ite (PageKey-discrete q k) none (view s q)
unfolding delete contains_key
delete-view s k q = ground (arith, lookup-remove PageKey-discrete k q s.pages)

-- The keys of a machine's pages.
pub keys_of_vm-All :
    (vm : ℕ) (q : PageKey) (m : Pages)
    → q.vm_id ≢ vm
    → All (λ k. q ≢ k) (keys (select (λ e. e.0.vm_id == vm) m))
keys_of_vm-All vm q [] h = tt
keys_of_vm-All vm q ((k, e) ∷ m) h = elim (Bool-cases (k.vm_id == vm)) [
  | inl same ↦ rw same ((λ p. ground arith), keys_of_vm-All vm q m h)
  | inr other ↦ rw other (keys_of_vm-All vm q m h)
]

selected :
    (vm : ℕ) (q : PageKey) (m : Pages) {w : List ℕ × ℕ}
    → q.vm_id ≡ vm
    → find q m ≡ some w
    → ¬ All (λ k. q ≢ k) (keys (select (λ e. e.0.vm_id == vm) m))
unfolding lookup
selected vm q [] {w} h f a = cc
selected vm q ((k, e) ∷ m) {w} h f a = elim (PageKey-discrete q k) [
  | yes here ↦ ground arith
  | no there ↦ elim (Bool-cases (k.vm_id == vm)) [
    | inl same ↦ selected vm q m {w = w} h (ground arith) (rw same at a).1
    | inr other ↦ selected vm q m {w = w} h (ground arith) (rw other at a)
  ]
]

find_gone :
    (s : PageStore) (vm : ℕ) (q : PageKey)
    → q.vm_id ≡ vm
    → (find q (remove_all PageKey-discrete (keys_for_vm s vm) s.pages) ≡ none)
      ⊎ ((e : List ℕ × ℕ) × (find q (remove_all PageKey-discrete (keys_for_vm s vm) s.pages)
            ≡ some e))
    → find q (remove_all PageKey-discrete (keys_for_vm s vm) s.pages) ≡ none
unfolding keys_for_vm
find_gone s vm q h (inl n) = n
find_gone s vm q h (inr (e, f)) =
    let (before, others) =
      lookup-remove_all-some PageKey-discrete (keys_for_vm s vm) q e s.pages f in
    absurd (selected vm q s.pages h before others)

pub find-delete_vm :
    (s : PageStore) (vm : ℕ) (q : PageKey)
    → find q (remove_all PageKey-discrete (keys_for_vm s vm) s.pages)
      ≡ (if q.vm_id == vm then none else find q s.pages)
unfolding keys_for_vm
find-delete_vm s vm q = elim (Bool-cases (q.vm_id == vm)) [
  | inl same ↦ rw same (
      find_gone s vm q (ground arith)
        (Option-cases (find q (remove_all PageKey-discrete (keys_for_vm s vm) s.pages))))
  | inr other ↦ rw other (
      lookup-remove_all_ne PageKey-discrete (keys_for_vm s vm) q s.pages
        (keys_of_vm-All vm q s.pages (ground arith)))
]

delete_vm-view :
    (s : PageStore) (vm : ℕ) (q : PageKey)
    → view (delete_vm s vm).0 q ≡ (if q.vm_id == vm then none else view s q)
unfolding delete_vm
delete_vm-view s vm q = ground (arith, find-delete_vm s vm q)

absent-All :
    (vm : ℕ) (k : PageKey) (m : Pages)
    → find k m ≡ none
    → All (λ j. k ≢ j) (keys (select (λ e. e.0.vm_id == vm) m))
unfolding lookup
absent-All vm k [] h = tt
absent-All vm k ((j, e) ∷ m) h = elim (PageKey-discrete k j) [
  | yes same ↦ ground (arith, same)
  | no other ↦ elim (Bool-cases (j.vm_id == vm)) [
    | inl here ↦ rw here (other, absent-All vm k m (ground arith))
    | inr left ↦ rw left (absent-All vm k m (ground arith))
  ]
]

select-NoRepeat :
    (vm : ℕ) (m : Pages)
    → Distinct PageKey-discrete m
    → NoRepeat (keys (select (λ e. e.0.vm_id == vm) m))
select-NoRepeat vm [] d = tt
select-NoRepeat vm ((k, e) ∷ m) d = elim (Bool-cases (k.vm_id == vm)) [
  | inl same ↦ rw same (absent-All vm k m d.0, select-NoRepeat vm m d.1)
  | inr other ↦ rw other (select-NoRepeat vm m d.1)
]

found_later :
    (q k : PageKey) (e : List ℕ × ℕ) (m : Pages)
    → is_some (find q m) ≡ true
    → is_some (find q ((k, e) ∷ m)) ≡ true
unfolding lookup
found_later q k e m h = ground arith

found_here :
    (q k : PageKey) (e : List ℕ × ℕ) (m : Pages) → q ≡ k → is_some (find q ((k, e) ∷ m)) ≡ true
unfolding lookup
found_here q k e m h = ground arith

Member-found :
    (vm : ℕ) (q : PageKey) (m : Pages)
    → Member q (keys (select (λ e. e.0.vm_id == vm) m))
    → (q.vm_id ≡ vm) × (is_some (find q m) ≡ true)
Member-found vm q [] h = absurd h
Member-found vm q ((k, e) ∷ m) h = elim (Bool-cases (k.vm_id == vm)) [
  | inl same ↦ elim (rw same at h) [
    | inl here ↦
        let id : q.vm_id ≡ vm = ground (arith, ap (λ j. j.vm_id) here, same) in
        (id, found_here q k e m here)
    | inr later ↦ let (id, found) = Member-found vm q m later in (id, found_later q k e m found)
  ]
  | inr other ↦
      let (id, found) = Member-found vm q m (rw other at h) in (id, found_later q k e m found)
]

found-Member :
    (vm : ℕ) (q : PageKey) (m : Pages)
    → q.vm_id ≡ vm
    → is_some (find q m) ≡ true
    → Member q (keys (select (λ e. e.0.vm_id == vm) m))
unfolding lookup
found-Member vm q [] id h = absurd (ground (arith, h))
found-Member vm q ((k, e) ∷ m) id h = elim (PageKey-discrete q k) [
  | yes here ↦
      let same : (k.vm_id == vm) ≡ true = ground (arith, ap (λ j. j.vm_id) here, id) in
      rw same (inl here)
  | no there ↦
      let later = found-Member vm q m id (ground arith) in
      elim (Bool-cases (k.vm_id == vm)) [
        | inl same ↦ rw same (inr later)
        | inr other ↦ rw other later
      ]
]

view_found : (s : PageStore) (q : PageKey) → is_some (view s q) ≡ is_some (find q s.pages)
view_found s q = ground arith

delete_vm-count :
    (s : PageStore) (vm : ℕ)
    → Distinct PageKey-discrete s.pages
    → HasCount (view s) vm (delete_vm s vm).1
unfolding delete_vm keys_for_vm
delete_vm-count s vm d = (
  keys_for_vm s vm,
  select-NoRepeat vm s.pages d,
  λ q. rw view_found (Member-found vm q s.pages, λ h. found-Member vm q s.pages h.0 h.1),
  ground arith,
)

-- A store with one entry per key implements a partial function from keys to bytes: after a put,
-- get, delete or delete of a machine its contents are those that the specification says, at every
-- key, and so is the reply; the reply to the deletion of a machine is the number of that machine's
-- keys at which the function is defined.
pub execute-refines :
    (now : ℕ) (s : PageStore) (c : Command)
    → Distinct PageKey-discrete s.pages
    → ((q : PageKey) → view (execute now s c).0 q ≡ spec_state (view s) c q)
      × MatchesReply (view s) c (execute now s c).1
unfolding execute put get delete contains_key
execute-refines now s (puts k bytes) d = (put-view now s k bytes, ground arith)
execute-refines now s (gets k) d = (get-view now s k, ground arith)
execute-refines now s (deletes k) d = (delete-view s k, ground arith)
execute-refines now s (deletes_vm vm) d =
    (delete_vm-view s vm, ((delete_vm s vm).1, refl, delete_vm-count s vm d))
