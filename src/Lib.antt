-- ===== src/Lib.antt =====
-- A model of the terminal core of BedTerm, rust-core/bedterm-core/src, and of the view models of
-- its application, rust-core/bedterm-ios/src.
--
-- The program. The host connects to a shell over SSH and hands the bytes of the session to
-- `Terminal::feed`. The shell, through an integration script, announces its prompts, commands and
-- exit codes by DCS frames within its output (`ESC P $ d`, a hexadecimal JSON body, a string
-- terminator). The terminal cuts each chunk at these frames, sends the output between them to an
-- emulator, which is the private grid of a running command's block or the global one, and keeps
-- one block for each command. The host shows the blocks and the screen by snapshots, whose glyphs
-- the renderer draws from an atlas.
-- Before a session there are the screens of the application: the onboarding, the list of saved
-- hosts, the form by which an entry is added or edited, and the attempts to connect, with the
-- fingerprints of the hosts' keys. Their state is kept by view models, which the calls of the user
-- interface and the callbacks of the SSH library change, in any order.
--
-- The files, by the source that they model:
--   Prelude    names of the libraries passed on; lists over native numbers, `i32`, text literals.
--   Utf8       `String::from_utf8` and `str::chars` of the standard library.
--   Dcs        dcs.rs. Dcs/Hex is `hex_decode`, Dcs/Json the scanner for keys, strings and integers
--              (`find_value_start`, `read_json_string`, `find_int_in_value`), Dcs/Body `parse_body`,
--              Dcs/Scan `scan_dcs_events` over a slice, Dcs/Sniffer `DcsSniffer` over a stream with
--              `feed` and `feed_with_positions`. The shell side, bedterm-integration.sh, is there
--              for what it writes: Dcs/Json/Escape is its `__bedterm_json_escape`.
--   CliAgent   cli_agent.rs: `CliAgent::detect` and the tags of the boundary to Swift.
--   Palette    the colours of term.rs: `Palette`, `default_indexed`, `color_to_rgba`.
--   Snapshot   snapshot.rs: the cells with and without a palette, `resolve`.
--   Snapshot/Cells  the double loop over lines and columns that each snapshot runs.
--   BlockGrid  block_grid.rs: `used_rows`, `last_content_row`, `snapshot`, `snapshot_raw`.
--   Blocks     blocks.rs: `Block`, `append_capped`, `BlockStore::apply` and what it calls.
--              Blocks/Session is the abstract view that the store implements, the finished blocks
--              and the block at hand; Blocks/Invariant and Blocks/History are about that view.
--   Terminal   term.rs: `Terminal::feed`, `dispatch_chunk`, `capture_output_bytes`, `resize`.
--              Terminal/Screen is its mode and its snapshots.
--   BlocksFfi  blocks_ffi.rs: `bt_term_block_at`, by which the host reads a block.
--   HostsStore rust-core/bedterm-ios/src/hosts_store.rs: `save`, `load_blob`, `delete` and
--              `reconcile_order`, on the in-memory backend.
--   HostsVm    rust-core/bedterm-ios/src/hosts_vm.rs: the operations of `HostsVM`. HostsVm/Alerts are
--              its texts, HostsVm/Events the calls as events and their runs; the others are about
--              attempts, sessions, deletions and merged entries.
--   HostsList  hosts/model.rs: the labels of an entry, and the parts of the JSON parser. Reader has
--              its loops, `parse_entry`, `parse_array` and `parse_entries_json`.
--   ConnectForm  connect_form_vm.rs and connect_form/model.rs: Base64, Address (`normalized_host`,
--              `normalized_port`), Uuid (`uuid_v4`), Vm (`ConnectFormVM`, `try_save`) and Draft.
--   HostKeys   host_key_store.rs: `verify` over `load`, `save` and `delete`, in memory.
--   NetUtil    net_util.rs: `is_lan_host`, with the parsers of IPv4 and IPv6 addresses.
--   InputMode  input_mode.rs: `ModeState`.
--   Onboarding  onboarding/state.rs and onboarding/coordinator.rs, as callbacks on a stack of screens.
--   L10n       l10n.rs: `t` and `format1`, over the tables of the build.
--   Atlas      renderer/atlas.rs: where cells, texts and icons are placed; Packed and Requests are about
--              each of its two sections, Sections, Filled and Capacity about both.
--   Alacritty  the data of `alacritty_terminal` that the sources match on, and the record
--              `Emulator` of its terminal and processor.
--   Tests      concrete runs, over a small emulator and a small parser.
--
-- How the code is read. A method with `&mut self` is a function from state to state. In the core
-- a `String` or a slice is the list of its bytes; in the view models a `String` is the list of
-- its characters, and where the code steps by bytes the model keeps track of the bytes. Machine
-- integers are natural numbers or integers with their wrap-around or saturation written out where
-- the code can reach it. Where the source panics, on an index or a range of a slice, the model
-- answers `none`, or a result of its own. An `Instant` is a number of nanoseconds, and the current one is an argument.
-- The crate `alacritty_terminal` is third-party: its emulator and its VTE parser are parameters.
-- The parser has the law that bytes may be handed over in pieces, and one theorem asks the same
-- of the emulator.
--
-- Loops on fuel: `scan_dcs_events` has the length of the slice as fuel and `feed_with_positions`
-- the length of the chunk, which are enough since a round takes at least one byte. The loops of
-- `parse_entry` and `parse_array` have the length of the text; Total of HostsList/Reader shows
-- that it is never used up.
--
-- Not modelled: the floating-point and Metal code of the renderer, the rasters of Core Text, the
-- UIKit views and the rest of the foreign function interface (glue), the keychain and the user
-- defaults of the device, the development tools, and the Swift application. Of the rest of
-- rust-core/bedterm-ios, the settings, the keyboard and the selection of blocks are not. Resizing
-- and scrolling inside the emulator belong to alacritty. The overflow checks of a debug build are
-- not modelled: the arithmetic is that of a release build, and where a length falls below zero
-- the allocation that it asks for panics.
pub mod Prelude
pub mod Utf8
pub mod Alacritty
pub mod Palette
pub mod Dcs
pub mod Snapshot
pub mod BlockGrid
pub mod Blocks
pub mod Terminal
pub mod CliAgent
pub mod HostsStore
pub mod L10n
pub mod HostsVm
pub mod ConnectForm
pub mod HostsList
pub mod HostKeys
pub mod InputMode
pub mod Onboarding
pub mod Atlas
mod Tests
pub mod BlocksFfi
pub mod NetUtil
