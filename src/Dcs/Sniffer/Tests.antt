-- ===== src/Dcs/Sniffer/Tests.antt =====
-- The sniffer at concrete inputs, over the small parser of Toy.
use bed_term.Prelude.{◌≡◌, true, some, List, [], ◌∷◌, ◌++◌, Bytes, take, drop}
use bed_term.Prelude.Int.{pos}
use bed_term.Prelude.Text.{codes}
use bed_term.Dcs.Hex.{hex_of}
use bed_term.Dcs.Body.Finished.{finished_json}
use bed_term.Dcs.Sniffer.{DcsSniffer, new_sniffer, feed_with_positions}
use bed_term.Dcs.Sniffer.Rounds.{events_of}
use bed_term.Dcs.Sniffer.Equivalence.{concat, feed_chunks, feed_chunks-concat}
use bed_term.Dcs.Sniffer.Toy.{passing, toy}

abbrev frame_bytes : Bytes
frame_bytes = 0x1B ∷ b'P' ∷ b'$' ∷ b'd' ∷ (hex_of (finished_json (pos 7)) ++ 0x9C ∷ [])

-- The frame in three pieces, with output before it.
abbrev pieces : List Bytes
pieces =
    (codes "out" ++ take 4 frame_bytes) ∷ take 20 (drop 4 frame_bytes) ∷ drop 24 frame_bytes ∷ []

feed_chunks-concat_example :
    events_of (feed_chunks toy (new_sniffer toy) pieces).1
    ≡ events_of (feed_with_positions toy (new_sniffer toy) (concat pieces)).1
feed_chunks-concat_example = feed_chunks-concat toy (new_sniffer toy) pieces

-- A sniffer that has read 100 bytes of output and the head of a frame in an earlier chunk.
abbrev halfway : DcsSniffer toy
halfway = record {
  parser = passing;
  sink = record {
    is_ours = true;
    buf = take 90 (hex_of (finished_json (pos 7)));
    events = [];
    frame_start_in_chunk = some 100;
  };
}
