-- ===== src/ConnectForm.antt =====
-- rust-core/bedterm-ios/src/connect_form_vm.rs and connect_form/model.rs: the form by which a host is
-- added or edited.
pub mod Base64
pub mod Address
pub mod Uuid
pub mod Vm
pub mod Draft
