-- ===== src/HostsStore/Lookup.antt =====
-- What is saved is loaded again, and what is deleted is not.
use bed_term.Prelude.{
  ℕ, ◌≡◌, refl, ap, ◌∙◌, inl, inr, not, ◌&&◌, ◌||◌, none, some, List, [], ◌∷◌, arith, if◌then◌else◌,
  Bool-cases, Bytes,
}
use bed_term.Prelude.Text.{text_eq, text_eq→eq}
use bed_term.HostsStore.{HostsStore, contains, without, lookup, save, load_blob, delete}
use bed_term.HostsStore.Order.{contains-append, contains-filter_ids}

pub lookup-without :
    (k j : List ℕ) (blobs : List (List ℕ × Bytes))
    → lookup j (without k blobs) ≡ (if text_eq j k then none else lookup j blobs)
unfolding lookup without
lookup-without k j [] = ground arith
lookup-without k j ((x, b) ∷ rest) =
    let ih = lookup-without k j rest in
    elim (Bool-cases (text_eq k x)) [
      | inl e ↦
          let same = ap (text_eq j) (text_eq→eq k x e) in
          elim (Bool-cases (text_eq j k)) [
            | inl q ↦ ground (arith, ih, e, q)
            | inr q ↦ ground (arith, ih, e, q, same)
          ]
      | inr e ↦ elim (Bool-cases (text_eq j k)) [
        | inl q ↦
            let same = ap (λ z. text_eq z x) (text_eq→eq j k q) in ground (arith, ih, e, q, same)
        | inr q ↦ ground (arith, ih, e, q)
      ]
    ]

-- Behind a `save`, its id loads what was saved and is in the order, and every other id loads what
-- it did before and is in the order where it was.
pub load_blob-save :
    (s : HostsStore) (k j : List ℕ) (bytes : Bytes)
    → (load_blob (save s k bytes) j ≡ (if text_eq j k then some bytes else load_blob s j))
      × (contains j (save s k bytes).order ≡ (text_eq j k || contains j s.order))
unfolding load_blob save lookup contains
load_blob-save s k j bytes =
    let kept = lookup-without k j s.blobs in
    let added = contains-append j s.order (k ∷ []) in
    elim (Bool-cases (text_eq j k)) [
      | inl q ↦
          let same = ap (λ z. contains z s.order) (text_eq→eq j k q) in
          (rw q refl, ground (arith, added, q, same))
      | inr q ↦ (rw q (kept ∙ rw q refl), ground (arith, added, q))
    ]

-- Behind a `delete`, its id loads nothing and is not in the order, and every other id loads what
-- it did before and is in the order where it was.
pub load_blob-delete :
    (s : HostsStore) (k j : List ℕ)
    → (load_blob (delete s k) j ≡ (if text_eq j k then none else load_blob s j))
      × (contains j (delete s k).order ≡ (not (text_eq j k) && contains j s.order))
unfolding load_blob delete
load_blob-delete s k j =
    let kept = contains-filter_ids j (λ id. not (text_eq id k)) s.order in
    (lookup-without k j s.blobs, ground (arith, kept))
