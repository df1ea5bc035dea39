-- ===== src/Tests/OfClient.antt =====
-- The replicating client on three stores of two pages each.
use omega_fusion_core_proxmo.Prelude.{ℕ, ◌≡◌, refl, some, lookup, ℕ_discrete, arith, inr}
use omega_fusion_core_proxmo.Store.{PageKey-discrete}
use omega_fusion_core_proxmo.Server.{ram}
use omega_fusion_core_proxmo.Client.{answered, request_lost, Pool, ok, store_index, replica_index}
use omega_fusion_core_proxmo.Client.Exchange.{IsPlaced}
use omega_fusion_core_proxmo.Client.Availability.{Holds, HasRoom}
use omega_fusion_core_proxmo.Client.Replication.{
  ReplicatedStoreClient, no_counts, put_page, get_page,
}
use omega_fusion_core_proxmo.Client.Durability.{get_page-put_page, get_page_stale}
use omega_fusion_core_proxmo.Tests.Samples.{zero_packer, texts, ops, page_of, length-page_of}
use omega_fusion_core_proxmo.Tests.InStore.{two_pages}

abbrev three_stores : Pool ℕ
three_stores = record { num_stores = 3; store_at = λ i. ram two_pages }

abbrev client : ReplicatedStoreClient ℕ
client = record { pool = three_stores; metrics = no_counts; factor = 2 }

page-IsPlaced : IsPlaced 7 1 (page_of 9)
page-IsPlaced = record {
  vm_id_u32 = omega arith;
  page_id_u64 = omega arith;
  whole = length-page_of 9;
}

primary-HasRoom : HasRoom three_stores (store_index three_stores 1) 10
primary-HasRoom = record { store = two_pages; is_ram = refl; room = refl }

replica-HasRoom : HasRoom three_stores (replica_index three_stores 1) 10
replica-HasRoom = record { store = two_pages; is_ram = refl; room = refl }

primary-Holds : Holds three_stores (store_index three_stores 1) 7 1 (page_of 2)
unfolding PageKey-discrete lookup ℕ_discrete
primary-Holds = record { store = two_pages; time = 10; is_ram = refl; held = refl }

get_page-put_page_example :
    let r = put_page ops texts zero_packer (λ i. 10) answered answered 30 7 1 (page_of 9) client in
    (r.1 ≡ ok tt)
    × ((get_page ops texts zero_packer (λ i. 10) request_lost answered 40 7 1 r.0).1
        ≡ some (page_of 9))
get_page-put_page_example =
    get_page-put_page ops texts zero_packer (λ i. 10) request_lost answered 30 40 7 1 (page_of 9)
      client page-IsPlaced refl primary-HasRoom replica-HasRoom (inr refl)

get_page_stale_example :
    let r =
      put_page ops texts zero_packer (λ i. 10) request_lost answered 30 7 1 (page_of 9) client in
    (r.1 ≡ ok tt)
    × ((get_page ops texts zero_packer (λ i. 10) answered answered 40 7 1 r.0).1 ≡ some (page_of 2))
get_page_stale_example =
    get_page_stale ops texts zero_packer (λ i. 10) answered 30 40 7 1 (page_of 9) (page_of 2) client
      page-IsPlaced (length-page_of 2) refl primary-Holds replica-HasRoom
