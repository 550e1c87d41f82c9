-- ===== src/HostsVm/Merge.antt =====
-- Adding entries to the view model of rust-core/bedterm-ios/src/hosts_vm.rs.
use bed_term.Prelude.{
  ◌≡◌, refl, sym, ap, ◌∙◌, inl, inr, true, false, ◌||◌, some, List, [], ◌∷◌, ◌++◌, append-nil,
  append_assoc, arith, Bool-cases,
}
use bed_term.Prelude.Text.{text_eq, text_eq_refl, text_eq→eq, Text}
use bed_term.HostsVm.{
  EntryMeta, HostsVm, FromStr, has_entry, merge_entries, merge_parsed, merge_injected,
}

-- No two entries have the same id.
abbrev pub IsDistinct : List EntryMeta → Type 0
IsDistinct [] = Unit
IsDistinct (e ∷ es) = (has_entry e.id es ≡ false) × IsDistinct es

has_entry-append :
    (id : Text) (es fs : List EntryMeta)
    → has_entry id (es ++ fs) ≡ (has_entry id es || has_entry id fs)
unfolding has_entry
has_entry-append id [] fs = refl
has_entry-append id (e ∷ es) fs = ground (arith, has_entry-append id es fs)

IsDistinct-last :
    (es : List EntryMeta) (x : EntryMeta)
    → IsDistinct es
    → has_entry x.id es ≡ false
    → IsDistinct (es ++ (x ∷ []))
unfolding has_entry
IsDistinct-last [] x d h = (refl, tt)
IsDistinct-last (e ∷ es) x d h = ground (
  arith,
  IsDistinct-last es x,
  has_entry-append e.id es (x ∷ []),
  text_eq→eq x.id e.id,
  text_eq_refl e.id,
)

merge_entries-IsDistinct :
    (es extras : List EntryMeta) → IsDistinct es → IsDistinct (merge_entries es extras)
unfolding merge_entries
merge_entries-IsDistinct es [] d = d
merge_entries-IsDistinct es (x ∷ xs) d = elim (Bool-cases (has_entry x.id es)) [
  | inl e ↦ rw e (merge_entries-IsDistinct es xs d)
  | inr e ↦ rw e (merge_entries-IsDistinct (es ++ (x ∷ [])) xs (IsDistinct-last es x d e))
]

has_entry_same :
    (a b : Text) (es : List EntryMeta) → text_eq a b ≡ true → has_entry b es ≡ has_entry a es
has_entry_same a b es h = ap (λ (t : Text). has_entry t es) (sym (text_eq→eq a b h))

has_entry-merge_entries :
    (id : Text) (es extras : List EntryMeta)
    → has_entry id (merge_entries es extras) ≡ (has_entry id es || has_entry id extras)
unfolding merge_entries
has_entry-merge_entries id es [] = unfold has_entry in ground arith
has_entry-merge_entries id es (x ∷ xs) = elim (Bool-cases (has_entry x.id es)) [
  | inl e ↦
      rw (e, has_entry-merge_entries id es xs)
        (unfold has_entry in ground (arith, e, has_entry_same x.id id es))
  | inr e ↦
      rw (e, has_entry-merge_entries id (es ++ (x ∷ [])) xs, has_entry-append id es (x ∷ []))
        (unfold has_entry in ground arith)
]

-- The entries that were there come first, as they were.
merge_entries-prefix :
    (es extras : List EntryMeta)
    → (added : List EntryMeta) × (merge_entries es extras ≡ es ++ added)
unfolding merge_entries
merge_entries-prefix es [] = ([], sym (append-nil es))
merge_entries-prefix es (x ∷ xs) = elim (Bool-cases (has_entry x.id es)) [
  | inl e ↦ rw e (merge_entries-prefix es xs)
  | inr e ↦
      let (added, p) = merge_entries-prefix (es ++ (x ∷ [])) xs in
      (x ∷ added, rw e (p ∙ append_assoc es (x ∷ []) added))
]

-- Merging keeps the ids distinct, adds behind the entries, and adds the ids that were missing.
pub merge_injected-IsDistinct :
    (from_str : FromStr) (vm : HostsVm) (json id : Text) (extras : List EntryMeta)
    → from_str json ≡ some extras
    → let r = merge_injected from_str vm json in
      (IsDistinct vm.entries → IsDistinct r.entries)
      × ((added : List EntryMeta) × (r.entries ≡ vm.entries ++ added))
      × (has_entry id r.entries ≡ (has_entry id vm.entries || has_entry id extras))
unfolding merge_injected merge_parsed
merge_injected-IsDistinct from_str vm json id extras h = rw h (
  merge_entries-IsDistinct vm.entries extras,
  merge_entries-prefix vm.entries extras,
  has_entry-merge_entries id vm.entries extras,
)
