-- ===== src/Tests/Protocol.antt =====
-- dcs.rs: bodies, bytes and slices at concrete inputs.
use bed_term.Prelude.Decimal.{print_ℕ}
use bed_term.Prelude.{ℕ, ◌≡◌, refl, some, List, [], ◌∷◌, arith, Bytes}
use bed_term.Prelude.Int.{pos}
use bed_term.Prelude.Text.{codes}
use bed_term.Utf8.{decode_utf8, from_utf8, chars, encode_all}
use bed_term.Utf8.RoundTrip.{chars-encode_all}
use bed_term.Dcs.Hex.{hex_of}
use bed_term.Dcs.Json.Escape.{escape_byte, escape_bytes, chomp}
use bed_term.Dcs.Json.Decimal.{print_ℤ}
use bed_term.Dcs.Body.{precmd, non_empty, parse_body}
use bed_term.Dcs.Body.Precmd.{precmd_json, parse_body-precmd}
use bed_term.Dcs.Body.Preexec.{preexec_json}
use bed_term.Dcs.Body.Finished.{finished_json}
use bed_term.Dcs.Scan.{scan_dcs_events}
use bed_term.Dcs.Scan.Render.{
  Segment, output, frame, foreign, stream_bytes, stream_events, scan_dcs_events-stream,
}
use bed_term.Dcs.Scan.Terminators.{st_8bit, st_7bit}
use bed_term.Dcs.Scan.Sound.{Frames, scan_dcs_events-Frames}

abbrev greeting : List ℕ
greeting = 0x68 ∷ 0xE9 ∷ 0x2603 ∷ 0x1F600 ∷ []

chars-encode_all_example :
    (from_utf8 (encode_all greeting) ≡ some (encode_all greeting))
    × (chars (encode_all greeting) ≡ greeting)
chars-encode_all_example = chars-encode_all greeting (refl, (refl, (refl, (refl, tt))))

-- A directory whose name tries to pass for a branch, and ends in a newline.
abbrev spoof : Bytes
spoof = codes "/tmp/\",\"git_branch\":\"evil\n"

spoof-from_utf8 : from_utf8 spoof ≡ some spoof
unfolding from_utf8 decode_utf8
spoof-from_utf8 = refl

main-from_utf8 : from_utf8 (codes "main") ≡ some (codes "main")
unfolding from_utf8 decode_utf8
main-from_utf8 = refl

parse_body-precmd_example :
    parse_body (hex_of (precmd_json spoof (codes "main")))
    ≡ some (precmd (some (codes "/tmp/\",\"git_branch\":\"evil")) (some (codes "main")))
unfolding non_empty chomp
parse_body-precmd_example =
    parse_body-precmd spoof (codes "main") (omega arith) (omega arith) spoof-from_utf8
      main-from_utf8

-- Output, one of our frames, a Sixel-like sequence and another frame, as the source's tests have them.
abbrev session : List Segment
session =
    output (codes "$ ls")
    ∷ frame (hex_of (preexec_json (codes "ls"))) st_8bit
    ∷ foreign b'q' b'1' (codes ";2") st_8bit
    ∷ frame (hex_of (finished_json (pos 0))) st_7bit
    ∷ output (codes "\nok")
    ∷ []

scan_dcs_events-stream_example : scan_dcs_events (stream_bytes session) ≡ stream_events 0 session
unfolding hex_of chomp escape_bytes escape_byte print_ℤ print_ℕ
scan_dcs_events-stream_example = scan_dcs_events-stream session (omega arith)

scan_dcs_events-Frames_example :
    Frames 0 (stream_bytes session) (scan_dcs_events (stream_bytes session))
scan_dcs_events-Frames_example = scan_dcs_events-Frames (stream_bytes session)
