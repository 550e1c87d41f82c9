-- ===== src/HostsStore/Order.antt =====
-- The order that the hosts are shown in.
use bed_term.Prelude.{
  ℕ, ◌≡◌, refl, sym, ap, ◌∙◌, inl, inr, Bool, true, false, not, ◌&&◌, ◌||◌, List, [], ◌∷◌, ◌++◌,
  append-nil, arith, if◌then◌else◌, Bool-cases,
}
use bed_term.Prelude.Text.{text_eq, text_eq_refl, text_eq→eq}
use bed_term.HostsStore.{
  contains, filter_ids, insert_id, sort_ids, valid_ordered, orphans, resolved_order,
}

pub contains-append :
    (k : List ℕ) (xs ys : List (List ℕ)) → contains k (xs ++ ys) ≡ (contains k xs || contains k ys)
unfolding contains
contains-append k [] ys = refl
contains-append k (x ∷ xs) ys = ground (arith, contains-append k xs ys)

pub contains-filter_ids :
    (k : List ℕ) (p : List ℕ → Bool) (xs : List (List ℕ))
    → contains k (filter_ids p xs) ≡ (contains k xs && p k)
unfolding contains filter_ids
contains-filter_ids k p [] = refl
contains-filter_ids k p (x ∷ xs) =
    let ih = contains-filter_ids k p xs in
    elim (Bool-cases (text_eq k x)) [
      | inl e ↦
          let same : p k ≡ p x = ap p (text_eq→eq k x e) in
          elim (Bool-cases (p x)) [
            | inl q ↦ rw (q, e, same, q) refl
            | inr q ↦ rw (q, e, same, q) (ground (arith, ih, same, q))
          ]
      | inr e ↦ elim (Bool-cases (p x)) [
        | inl q ↦ ground (arith, ih, q, e)
        | inr q ↦ ground (arith, ih, q, e)
      ]
    ]

contains-insert_id :
    (k x : List ℕ) (xs : List (List ℕ))
    → contains k (insert_id x xs) ≡ (if text_eq k x then true else contains k xs)
unfolding contains insert_id
contains-insert_id k x [] = refl
contains-insert_id k x (y ∷ ys) = ground (arith, contains-insert_id k x ys)

contains-sort_ids : (k : List ℕ) (xs : List (List ℕ)) → contains k (sort_ids xs) ≡ contains k xs
unfolding contains sort_ids
contains-sort_ids k [] = refl
contains-sort_ids k (x ∷ xs) =
    contains-insert_id k x (sort_ids xs) ∙ rw (contains-sort_ids k xs) refl

contains-valid_ordered :
    (k : List ℕ) (stored keychain : List (List ℕ))
    → contains k (valid_ordered stored keychain) ≡ (contains k stored && contains k keychain)
unfolding valid_ordered
contains-valid_ordered k stored keychain = contains-filter_ids k (λ id. contains id keychain) stored

contains-orphans :
    (k : List ℕ) (valid keychain : List (List ℕ))
    → contains k (orphans valid keychain) ≡ (contains k keychain && not (contains k valid))
unfolding orphans
contains-orphans k valid keychain =
    contains-sort_ids k (filter_ids (λ id. not (contains id valid)) keychain)
    ∙ contains-filter_ids k (λ id. not (contains id valid)) keychain

-- The order that reconciling resolves lists exactly the ids that have a blob, whatever order was
-- stored.
pub contains-resolved_order :
    (k : List ℕ) (stored keychain : List (List ℕ))
    → contains k (resolved_order stored keychain) ≡ contains k keychain
unfolding resolved_order
contains-resolved_order k stored keychain =
    let valid = valid_ordered stored keychain in
    let v = contains-valid_ordered k stored keychain in
    let o = contains-orphans k valid keychain in
    let both = contains-append k valid (orphans valid keychain) in ground (arith, v, o, both)

filter_ids-all :
    (p : List ℕ → Bool) (xs : List (List ℕ))
    → ((k : List ℕ) → contains k xs ≡ true → p k ≡ true)
    → filter_ids p xs ≡ xs
unfolding filter_ids contains
filter_ids-all p [] h = refl
filter_ids-all p (x ∷ xs) h =
    let here : p x ≡ true = h x (rw text_eq_refl refl) in
    rw here (ap (◌∷◌ x) (filter_ids-all p xs (λ k c. h k (ground (arith, c)))))

filter_ids-none :
    (p : List ℕ → Bool) (xs : List (List ℕ))
    → ((k : List ℕ) → contains k xs ≡ true → p k ≡ false)
    → filter_ids p xs ≡ []
unfolding filter_ids contains
filter_ids-none p [] h = refl
filter_ids-none p (x ∷ xs) h =
    let here : p x ≡ false = h x (rw text_eq_refl refl) in
    rw here (filter_ids-none p xs (λ k c. h k (ground (arith, c))))

orphans-none :
    (valid keychain : List (List ℕ))
    → ((k : List ℕ) → contains k keychain ≡ true → contains k valid ≡ true)
    → orphans valid keychain ≡ []
unfolding orphans sort_ids
orphans-none valid keychain h =
    ap sort_ids (filter_ids-none (λ id. not (contains id valid)) keychain (λ k c. rw (h k c) refl))

valid_ordered-all :
    (stored keychain : List (List ℕ))
    → ((k : List ℕ) → contains k stored ≡ true → contains k keychain ≡ true)
    → valid_ordered stored keychain ≡ stored
unfolding valid_ordered
valid_ordered-all stored keychain h = filter_ids-all (λ id. contains id keychain) stored h

resolved_order-settled :
    (r keychain : List (List ℕ))
    → ((k : List ℕ) → contains k r ≡ contains k keychain)
    → resolved_order r keychain ≡ r
unfolding resolved_order
resolved_order-settled r keychain h =
    ap (λ v. v ++ orphans v keychain) (valid_ordered-all r keychain (λ k c. sym (h k) ∙ c))
    ∙ ap (λ o. r ++ o) (orphans-none r keychain (λ k c. h k ∙ c))
    ∙ append-nil r

-- Reconciling an order that is reconciled changes nothing, while the blobs stay the same.
pub resolved_order-twice :
    (stored keychain : List (List ℕ))
    → resolved_order (resolved_order stored keychain) keychain ≡ resolved_order stored keychain
resolved_order-twice stored keychain =
    resolved_order-settled (resolved_order stored keychain) keychain
      (λ k. contains-resolved_order k stored keychain)
