-- ===== src/HostsVm/Deletion.antt =====
-- Deleting an entry of the view model of rust-core/bedterm-ios/src/hosts_vm.rs.
use bed_term.Prelude.{
  ◌≡◌, refl, false, Option, none, some, List, [], ◌∷◌, inl, inr, arith, if◌then◌else◌, Bool-cases,
}
use bed_term.Prelude.Text.{text_eq, text_eq_refl, text_eq→eq, Text, is_id}
use bed_term.HostsVm.{
  EntryMeta, HostsVm, has_entry, connect_completed_session, request_delete, retain_others, clear_if,
  delete_of, confirm_delete,
}

-- The second list is the first one without the entries of `id`: every other entry is kept once, and
-- in its order.
pub data IsWithout (id : Text) : List EntryMeta → List EntryMeta → Type 0 where
  ends : IsWithout id [] []
  drops :
      {e : EntryMeta} {es rs : List EntryMeta}
      → e.id ≡ id
      → IsWithout id es rs
      → IsWithout id (e ∷ es) rs
  keeps :
      {e : EntryMeta} {es rs : List EntryMeta}
      → ¬ (e.id ≡ id)
      → IsWithout id es rs
      → IsWithout id (e ∷ es) (e ∷ rs)

retain_others-IsWithout : (id : Text) (es : List EntryMeta) → IsWithout id es (retain_others id es)
unfolding retain_others
retain_others-IsWithout id [] = ends
retain_others-IsWithout id (e ∷ es) = elim (Bool-cases (text_eq e.id id)) [
  | inl t ↦ rw t (drops (text_eq→eq e.id id t) (retain_others-IsWithout id es))
  | inr f ↦
      let other : ¬ (e.id ≡ id) = λ p. cc (f, p, text_eq_refl id) in
      rw f (keeps other (retain_others-IsWithout id es))
]

has_entry-retain_others :
    (id other : Text) (es : List EntryMeta)
    → has_entry other (retain_others id es)
      ≡ (if text_eq id other then false else has_entry other es)
unfolding has_entry retain_others
has_entry-retain_others id other [] = ground arith
has_entry-retain_others id other (e ∷ es) = ground (
  arith,
  has_entry-retain_others id other es,
  text_eq→eq e.id id,
  text_eq→eq e.id other,
  text_eq_refl other,
  text_eq_refl id,
  text_eq→eq id other,
)

clear_if_others :
    (id other : Text) (o : Option Text)
    → is_id (clear_if (is_id o id) id o) other ≡ (if text_eq id other then false else is_id o other)
unfolding clear_if
clear_if_others id other none = ground arith
clear_if_others id other (some x) = ground (
  arith,
  text_eq→eq x id,
  text_eq→eq x other,
  text_eq→eq id other,
  text_eq_refl id,
  text_eq_refl other,
)

-- A deletion that is requested and confirmed at once hands its id to the caller, closes the
-- dialog, leaves the entries of every other id, each once and in their order, and none of that
-- id, and takes the id out of the live session and of the attempt in flight, where every other id
-- stays.
pub confirm_delete-request_delete :
    (vm : HostsVm) (id other : Text)
    → let asked = request_delete vm id in
      let r = confirm_delete asked in
      (r.1 ≡ some id)
      × (r.0.delete_confirmation ≡ none)
      × IsWithout id vm.entries r.0.entries
      × (has_entry other r.0.entries
          ≡ (if text_eq id other then false else has_entry other vm.entries))
      × (is_id r.0.current_session_id other
          ≡ (if text_eq id other then false else is_id vm.current_session_id other))
      × (is_id r.0.in_flight_id other
          ≡ (if text_eq id other then false else is_id vm.in_flight_id other))
unfolding confirm_delete request_delete delete_of
confirm_delete-request_delete vm id other = (
  refl,
  refl,
  retain_others-IsWithout id vm.entries,
  has_entry-retain_others id other vm.entries,
  clear_if_others id other vm.current_session_id,
  clear_if_others id other vm.in_flight_id,
)

-- Where the session of the host in flight opens while the dialog for its deletion is shown, and
-- none was live, the confirmed deletion takes the host out of the entries but leaves it as the
-- live one.
pub confirm_delete_opened :
    (vm : HostsVm) (id : Text)
    → vm.in_flight_id ≡ some id
    → vm.current_session_id ≡ none
    → let r = confirm_delete (connect_completed_session (request_delete vm id) id) in
      (has_entry id r.0.entries ≡ false) × (r.0.current_session_id ≡ some id)
unfolding confirm_delete request_delete delete_of connect_completed_session clear_if
confirm_delete_opened vm id p q =
    ground (arith, has_entry-retain_others id id vm.entries, text_eq_refl id)
