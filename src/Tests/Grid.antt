-- ===== src/Tests/Grid.antt =====
-- block_grid.rs at a concrete grid.
use bed_term.Prelude.{◌*◌, ◌≡◌, arith, length}
use bed_term.Prelude.Text.{codes}
use bed_term.Palette.{default_palette}
use bed_term.Snapshot.{resolve_grid}
use bed_term.BlockGrid.{BlockGrid, last_content_row, used_rows, snapshot, snapshot_raw}
use bed_term.BlockGrid.Content.{IsLast, last_content_row-IsLast}
use bed_term.BlockGrid.Frame.{resolve_grid-snapshot_raw, IsSized, used_rows-rows}
use bed_term.Tests.Screen.{pages}

abbrev pub listing : BlockGrid pages
listing = record {
  parser = tt;
  term = record { text = codes "ls"; height = 3 };
  cols = 4;
  rows = 3;
}

pub listing-IsSized : IsSized pages listing
listing-IsSized = record { some_row = omega arith; few_lines = omega arith }

resolve_grid-snapshot_raw_example :
    resolve_grid (snapshot_raw pages listing) default_palette
    ≡ snapshot pages listing default_palette
resolve_grid-snapshot_raw_example = resolve_grid-snapshot_raw pages listing default_palette

used_rows-rows_example :
    (used_rows pages listing ≡ (snapshot pages listing default_palette).rows)
    × (length (snapshot pages listing default_palette).cells
        ≡ (snapshot pages listing default_palette).rows
          * (snapshot pages listing default_palette).cols)
used_rows-rows_example = used_rows-rows pages listing default_palette listing-IsSized

last_content_row-IsLast_example : IsLast pages listing (last_content_row pages listing)
last_content_row-IsLast_example = last_content_row-IsLast pages listing
