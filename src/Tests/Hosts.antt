-- ===== src/Tests/Hosts.antt =====
-- hosts_store.rs at concrete stores.
use bed_term.Prelude.{◌≡◌, [], ◌∷◌}
use bed_term.Prelude.Text.{codes}
use bed_term.HostsStore.{HostsStore, contains, keys, resolved_order}
use bed_term.HostsStore.Order.{contains-resolved_order}

-- Two hosts with a blob; the order has lost one of them and lists one that is gone.
abbrev saved : HostsStore
saved = record {
  blobs = (codes "b", 1 ∷ []) ∷ (codes "a", 2 ∷ []) ∷ [];
  order = codes "gone" ∷ codes "b" ∷ [];
}

contains-resolved_order_example :
    contains (codes "a") (resolved_order saved.order (keys saved.blobs))
    ≡ contains (codes "a") (codes "b" ∷ codes "a" ∷ [])
contains-resolved_order_example = contains-resolved_order (codes "a") saved.order (keys saved.blobs)
