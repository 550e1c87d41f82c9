-- ===== src/Tests/Feed.antt =====
-- The feeding of a concrete terminal.
use bed_term.Prelude.Decimal.{print_ℕ}
use bed_term.Prelude.{
  ◌≡◌, refl, sym, ap, ◌∙◌, true, none, some, [], ◌∷◌, ◌++◌, append_assoc, arith, take, drop,
  take-append-drop,
}
use bed_term.Prelude.Int.{pos}
use bed_term.Prelude.Text.{codes}
use bed_term.Palette.{default_palette}
use bed_term.BlockGrid.{feed_grid}
use bed_term.Blocks.{append_output_bytes}
use bed_term.Dcs.Hex.{hex_of}
use bed_term.Dcs.Json.Decimal.{print_ℤ}
use bed_term.Dcs.Body.{command_finished, parse_body}
use bed_term.Dcs.Body.Finished.{finished_json, parse_body-finished}
use bed_term.Dcs.Sniffer.{feed_with_positions}
use bed_term.Dcs.Sniffer.Stale.{stay, next}
use bed_term.Dcs.Sniffer.Toy.{ground_mode, passing, toy, idle, idle-abc, idle-a, idle-bc}
use bed_term.Blocks.Session.{stored, store_of}
use bed_term.Terminal.{Terminal, feed_bytes}
use bed_term.Terminal.Feed.{IsStore, feed_bytes-returns}
use bed_term.Terminal.Pieces.{feed_bytes-pieces}
use bed_term.Terminal.Routing.{feed_bytes-command}
use bed_term.Terminal.Stale.{feed_bytes-panics}
use bed_term.Tests.Screen.{pages}
use bed_term.Tests.Grid.{listing}
use bed_term.Tests.Session.{at_work, over, demo}

-- A terminal in which a command runs.
abbrev pub busy : Terminal pages toy
busy = record {
  parser = tt;
  term = record { text = codes "$ ls"; height = 3 };
  cols = 4;
  rows = 3;
  palette = default_palette;
  dcs = idle;
  blocks = store_of pages demo;
}

feed_bytes-returns_example :
    (t' : Terminal pages toy) × (feed_bytes pages toy busy (codes "abc") 0 ≡ some t')
    × IsStore pages t'.blocks
feed_bytes-returns_example =
    feed_bytes-returns pages toy busy (codes "abc") 0 refl (demo, refl, refl)

feed_bytes-command_example :
    feed_bytes pages toy busy (codes "abc") 0
    ≡ some (record busy {
      dcs = (feed_with_positions toy idle (codes "abc")).0;
      blocks =
          stored pages
            (over ∷ [])
            (some (
              append_output_bytes pages
                (record at_work { grid = some (feed_grid pages listing (codes "abc")) })
                (codes "abc")))
            3
            (some 5000000);
    })
unfolding feed_grid
feed_bytes-command_example =
    feed_bytes-command pages toy busy (over ∷ []) at_work listing 3 (some 5000000) b'a' (codes "bc")
      0 refl refl idle-abc

-- The same terminal at the prompt.
abbrev prompting : Terminal pages toy
prompting = record busy { blocks = stored pages (over ∷ []) none 2 none }

-- A terminal that has got 100 bytes of output and the head of a frame in an earlier call.
abbrev mid_frame : Terminal pages toy
mid_frame = record busy {
  dcs = record {
    parser = passing;
    sink = record {
      is_ours = true;
      buf = take 90 (hex_of (finished_json (pos 7)));
      events = [];
      frame_start_in_chunk = some 100;
    };
  };
}

feed_bytes-panics_example :
    feed_bytes pages toy mid_frame (drop 90 (hex_of (finished_json (pos 7))) ++ 0x9C ∷ []) 0 ≡ none
unfolding hex_of print_ℤ print_ℕ
feed_bytes-panics_example =
    feed_bytes-panics pages toy mid_frame 100 (drop 90 (hex_of (finished_json (pos 7)))) passing
      ground_mode (command_finished (pos 7)) 0 (record { ours = refl; noted = refl }) (omega arith)
      (next refl (
        next refl (
          next refl (
            next refl (
              next refl (next refl (next refl (next refl (next refl (next refl (stay refl)))))))))))
      refl
      (ap parse_body (take-append-drop 90 (hex_of (finished_json (pos 7))))
        ∙ parse_body-finished (pos 7) (omega arith))

feed_bytes-pieces_example :
    (one two whole : Terminal pages toy) × (feed_bytes pages toy busy (codes "a") 0 ≡ some one)
    × (feed_bytes pages toy one (codes "bc") 0 ≡ some two)
    × (feed_bytes pages toy busy (codes "abc") 0 ≡ some whole)
    × (two.blocks ≡ whole.blocks)
feed_bytes-pieces_example =
    feed_bytes-pieces pages toy busy (over ∷ []) at_work listing 3 (some 5000000) b'a' b'b' []
      (codes "c") 0
      (λ p page xs ys i. (p, record page { text = sym (append_assoc page.text xs ys) i })) refl refl
      idle-a idle-bc idle-abc
