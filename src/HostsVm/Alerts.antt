-- ===== src/HostsVm/Alerts.antt =====
-- The alerts of rust-core/bedterm-ios/src/hosts_vm.rs, in the language that L10n gives.
use mathlib.Core.Option
use bed_term.Prelude.{Option, [], ◌++◌, if◌then◌else◌}
use bed_term.Prelude.Text.{codes, Text}
use bed_term.L10n.{L10n, t, format1}
use bed_term.HostsVm.{PendingMismatch, SwapConfirmation, DeleteConfirmation, HostsVm}

pub record AlertText : Type 0 where
  pub title : Text
  pub message : Text
  pub confirm_label : Text
  pub cancel_label : Text

swap_text : L10n → SwapConfirmation → AlertText
swap_text l s = record {
  title = format1 l (codes "End current session and connect to \"%@\"?") s.swap_name;
  message = t l (codes "Your current SSH session will be disconnected.");
  confirm_label = t l (codes "Connect");
  cancel_label = t l (codes "Cancel");
}

unfoldable pub swap_alert : L10n → HostsVm → Option AlertText
unfolding swap_text
swap_alert l vm = Option.map (swap_text l) vm.swap_confirmation

live_message : Text
live_message =
    codes "You are currently connected. The session will end and "
    ++ codes "the saved password or key will be removed."

delete_text : L10n → DeleteConfirmation → AlertText
unfolding live_message
delete_text l d = record {
  title =
      if d.is_live
      then format1 l (codes "Disconnect and delete \"%@\"?") d.delete_name
      else format1 l (codes "Delete \"%@\"?") d.delete_name;
  message =
      if d.is_live
      then t l live_message
      else t l (codes "This will remove the saved password or key.");
  confirm_label = t l (codes "Delete");
  cancel_label = t l (codes "Cancel");
}

unfoldable pub delete_alert : L10n → HostsVm → Option AlertText
unfolding delete_text
delete_alert l vm = Option.map (delete_text l) vm.delete_confirmation

mismatch_text : L10n → PendingMismatch → AlertText
mismatch_text l m = record {
  title = format1 l (codes "Host key changed · %@") m.mismatch_host;
  message = t l (codes "Tap to review and accept or reject.");
  confirm_label = t l (codes "Review");
  cancel_label = [];
}

unfoldable pub mismatch_alert : L10n → HostsVm → Option AlertText
unfolding mismatch_text
mismatch_alert l vm = Option.map (mismatch_text l) vm.pending_mismatch
