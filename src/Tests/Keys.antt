-- ===== src/Tests/Keys.antt =====
-- host_key_store.rs and onboarding/coordinator.rs at concrete inputs.
use bed_term.Prelude.{◌+◌, ◌≡◌, refl, some, [], arith}
use bed_term.Prelude.Int.{pos}
use bed_term.Prelude.Text.{codes, text_eq}
use bed_term.HostKeys.{mismatch, unknown, save, delete, verdict_of, verify}
use bed_term.HostKeys.Trust.{verify-save}
use bed_term.Onboarding.{
  host_kind_from_choice, location_vc, Coordinator, create_flow_vc, push_next, host_kind_chosen,
  host_kind_choice_cb,
}
use bed_term.Onboarding.Flow.{chooses_host, ◌⟶*◌, here, then, callback, callback_returns}
use bed_term.Onboarding.Finish.{create_flow_vc_finishes}

verify-save_example :
    (verify (save [] (codes "pi") 22 (codes "SHA256:x")) (codes "pi") 22 (codes "SHA256:y")
      ≡ mismatch (codes "SHA256:x"))
    × (verify (delete [] (codes "pi") 22) (codes "pi") 22 (codes "SHA256:y") ≡ unknown)
unfolding text_eq verdict_of
verify-save_example =
    verify-save [] (codes "pi") (codes "pi") (codes "SHA256:x") (codes "SHA256:y") 22 22
      (omega arith) (omega arith)

-- The user has said that the host is a Mac.
abbrev at_location : Coordinator
at_location = host_kind_choice_cb create_flow_vc (pos 0)

to_location : create_flow_vc ⟶* at_location
to_location = then (chooses_host {c = create_flow_vc} (pos 0) (unfold create_flow_vc in refl)) here

callback_returns_example : (d : Coordinator) × (callback at_location location_vc (pos 1) ≡ some d)
callback_returns_example = callback_returns at_location location_vc (pos 1) to_location (
    unfold host_kind_choice_cb host_kind_chosen host_kind_from_choice push_next create_flow_vc in
    refl)

create_flow_vc_finishes_example :
    (d : Coordinator) × (at_location ⟶* d) × (d.completed ≡ 2 + at_location.completed)
create_flow_vc_finishes_example = create_flow_vc_finishes at_location 2 to_location
