-- ===== src/HostsStore.antt =====
-- rust-core/bedterm-ios/src/hosts_store.rs: the saved hosts, on its in-memory backend: the blobs by
-- their ids, and the order in which they are shown. The backend of the device keeps both in the
-- keychain and in the user defaults instead. An id is a `String`, the list of its characters.
pub mod Order
pub mod Lookup
use bed_term.Prelude.{
  ℕ, Bool, true, false, not, Option, none, some, List, [], ◌∷◌, ◌++◌, map, ltb, ◌==◌, if◌then◌else◌,
  Bytes,
}
use bed_term.Prelude.Text.{text_eq}

pub record HostsStore : Type 0 where
  pub blobs : List (List ℕ × Bytes)
  pub order : List (List ℕ)

-- `HashSet::contains`, and `iter().any(|s| s == uuid)`.
unfoldable pub contains : List ℕ → List (List ℕ) → Bool
contains k [] = false
contains k (x ∷ xs) = if text_eq k x then true else contains k xs

-- `HashMap::remove`.
unfoldable pub without : List ℕ → List (List ℕ × Bytes) → List (List ℕ × Bytes)
without k [] = []
without k ((x, b) ∷ rest) =
    let later = without k rest in if text_eq k x then later else (x, b) ∷ later

-- `HashMap::get`.
unfoldable pub lookup : List ℕ → List (List ℕ × Bytes) → Option Bytes
lookup k [] = none
lookup k ((x, b) ∷ rest) = if text_eq k x then some b else lookup k rest

-- `HashMap::keys`.
abbrev pub keys : List (List ℕ × Bytes) → List (List ℕ)
keys = map λ e. e.0

-- `iter().filter(..)`, and `retain`.
unfoldable pub filter_ids : (List ℕ → Bool) → List (List ℕ) → List (List ℕ)
filter_ids p [] = []
filter_ids p (x ∷ xs) = let later = filter_ids p xs in if p x then x ∷ later else later

-- `a <= b`, of strings.
unfoldable pub text_le : List ℕ → List ℕ → Bool
text_le [] ys = true
text_le (x ∷ xs) [] = false
text_le (x ∷ xs) (y ∷ ys) = if x == y then text_le xs ys else ltb x y

unfoldable pub insert_id : List ℕ → List (List ℕ) → List (List ℕ)
insert_id k [] = k ∷ []
insert_id k (x ∷ xs) = let later = insert_id k xs in if text_le k x then k ∷ x ∷ xs else x ∷ later

-- `sort()`, which is stable.
unfoldable pub sort_ids : List (List ℕ) → List (List ℕ)
sort_ids [] = []
sort_ids (x ∷ xs) = insert_id x (sort_ids xs)

-- `save`, which succeeds on this backend.
unfoldable pub save : HostsStore → List ℕ → Bytes → HostsStore
save s uuid bytes = record {
  blobs = (uuid, bytes) ∷ without uuid s.blobs;
  order = if contains uuid s.order then s.order else s.order ++ uuid ∷ [];
}

-- `load_blob`.
unfoldable pub load_blob : HostsStore → List ℕ → Option Bytes
load_blob s uuid = lookup uuid s.blobs

-- `delete`.
unfoldable pub delete : HostsStore → List ℕ → HostsStore
delete s uuid = record {
  blobs = without uuid s.blobs;
  order = filter_ids (λ id. not (text_eq id uuid)) s.order;
}

-- The ids of `stored` that have a blob.
unfoldable pub valid_ordered : List (List ℕ) → List (List ℕ) → List (List ℕ)
valid_ordered stored keychain = filter_ids (λ id. contains id keychain) stored

-- The ids with a blob that `valid` lacks, sorted.
unfoldable pub orphans : List (List ℕ) → List (List ℕ) → List (List ℕ)
orphans valid keychain = sort_ids (filter_ids (λ id. not (contains id valid)) keychain)

-- `resolved`, of the stored order and of the keys of the blobs.
unfoldable pub resolved_order : List (List ℕ) → List (List ℕ) → List (List ℕ)
resolved_order stored keychain =
    let valid = valid_ordered stored keychain in valid ++ orphans valid keychain

-- `reconcile_order`. Writing an order that is the stored one changes nothing.
unfoldable pub reconcile_order : HostsStore → HostsStore × List (List ℕ)
reconcile_order s =
    let resolved = resolved_order s.order (keys s.blobs) in
    (record s { order = resolved }, resolved)
