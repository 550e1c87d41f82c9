-- ===== src/HostKeys.antt =====
-- rust-core/bedterm-ios/src/host_key_store.rs: the fingerprints of the hosts' keys, on the in-memory
-- backend that its test override installs. On the device they are in the keychain instead.
pub mod Trust
use bed_term.Prelude.{ℕ, Option, none, some, List, ◌∷◌, ◌++◌, if◌then◌else◌}
use bed_term.Prelude.Text.{text_eq, Text}
use bed_term.Prelude.Decimal.{print_ℕ}
use bed_term.HostsStore.{without, lookup}

-- `format!("{host}:{port}")`.
unfoldable pub account : Text → ℕ → Text
account host port = host ++ (b':' ∷ print_ℕ port)

pub data Verdict : Type 0 where
  matches : Verdict
  mismatch : Text → Verdict
  unknown : Verdict

abbrev pub Items : Type 0
Items = List (Text × Text)

unfoldable pub load : Items → Text → ℕ → Option Text
load items host port = lookup (account host port) items

unfoldable pub save : Items → Text → ℕ → Text → Items
save items host port fingerprint =
    (account host port, fingerprint) ∷ without (account host port) items

unfoldable pub delete : Items → Text → ℕ → Items
delete items host port = without (account host port) items

-- `match load(host, port)`.
unfoldable pub verdict_of : Option Text → Text → Verdict
verdict_of none remote = unknown
verdict_of (some stored) remote = if text_eq stored remote then matches else mismatch stored

unfoldable pub verify : Items → Text → ℕ → Text → Verdict
verify items host port remote = verdict_of (load items host port) remote
