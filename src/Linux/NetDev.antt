-- ===== src/Linux/NetDev.antt =====
-- `pernic_net_io_counters` of pypsutil/_pslinux.py: the table in /proc/net/dev. The lines of the file
-- are an argument.
pub mod Padded
pub mod Row
use mathlib.Core.List.{reverse}
use pypsutil.Prelude.{ℕ, true, false, Option, none, some, List, [], ◌∷◌, ◌==◌, drop}
use pypsutil.Prelude.Exn.{Exn, Result, ok, err, ◌>>=◌}
use pypsutil.Prelude.Text.{Text, split, text_keys}
use pypsutil.Prelude.Dict.{Dict, insert}
use pypsutil.Linux.Status.{ints}
use pypsutil.Util.NetIoCounts.{NetIoCounts}

unfoldable pub drop_colons : Text → Text
drop_colons [] = []
drop_colons (c ∷ s) = elim (c == 58) [ true ↦ drop_colons s | false ↦ c ∷ s ]

-- `name.rstrip(":")`
abbrev pub rstrip_colons : Text → Text
rstrip_colons name = reverse (drop_colons (reverse name))

-- The sixteen numbers: eight on what was received, eight on what was sent.
abbrev pub counts_of : List ℕ → Result NetIoCounts
counts_of
      (b_recv ∷ p_recv ∷ e_in ∷ d_in ∷ _ ∷ _ ∷ _ ∷ _ ∷ b_send ∷ p_send ∷ e_out ∷ d_out ∷ _ ∷ _ ∷ _
        ∷ _ ∷ []) =
    ok (record {
      bytes_sent = b_send;
      bytes_recv = b_recv;
      packets_sent = p_send;
      packets_recv = p_recv;
      errin = e_in;
      errout = e_out;
      dropin = d_in;
      dropout = d_out;
    })
counts_of _ = err Exn.value_error

-- The words of a line.
unfoldable pub dev_words : List Text → Result (Text × NetIoCounts)
dev_words [] = err Exn.value_error
dev_words (name ∷ parts) = do
  numbers ← ints parts
  counts ← counts_of numbers
  ok (rstrip_colons name, counts)

unfoldable pub dev_row : Text → Result (Text × NetIoCounts)
unfolding dev_words
dev_row line = dev_words (split line)

unfoldable pub dev_rows : List Text → Dict Text NetIoCounts → Result (Dict Text NetIoCounts)
unfolding dev_row
dev_rows [] counts = ok counts
dev_rows (line ∷ lines) counts = do (name, c) ← dev_row line; dev_rows lines (insert name c counts)

-- The first two lines are a heading.
unfoldable pub read_net_dev : Result (List Text) → Result (Dict Text NetIoCounts)
unfolding dev_rows
read_net_dev file = do lines ← file; dev_rows (drop 2 lines) []
