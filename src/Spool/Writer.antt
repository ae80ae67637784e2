-- ===== src/Spool/Writer.antt =====
-- internal/spool/spool.go: `appendLine`, `rotate` and `Close`.
pub mod Acked
use behalf.Prelude.{
  ℕ, ◌+◌, Bool, true, false, ◌&&◌, Option, none, some, List, [], ◌∷◌, ◌++◌, ltb, if◌then◌else◌,
  length, take, Bytes,
}

-- How the file system serves one append: whether the old segment is closed, a new one opened, how much
-- of a line that cannot be written whole is written, and whether the file is synced.
pub record Served : Type 0 where
  pub sealed : Bool
  pub opened : Bool
  pub cut : Option ℕ
  pub synced : Bool

-- A `Spool`: the segments that it has sealed, and the one that it writes.
pub record Writer : Type 0 where
  pub max : ℕ
  pub before : List Bytes
  pub seg : Option Bytes
  pub written : ℕ
  pub closed : Bool

open_new : Bool → Writer → Writer × Bool
open_new true w = (record w { seg = some []; written = 0 }, true)
open_new false w = (record w { seg = none }, false)

-- `rotate`.
unfoldable pub rotate : Served → Writer → Option Bytes → Writer × Bool
unfolding open_new
rotate fs w none = open_new fs.opened w
rotate fs w (some content) =
    if fs.sealed
    then open_new fs.opened record w { before = w.before ++ (content ∷ []); seg = none }
    else (w, false)

must_rotate : Writer → Bytes → Option Bytes → Bool
must_rotate w line none = true
must_rotate w line (some content) = ltb 0 w.written && ltb w.max (w.written + length line)

write_cut : Option ℕ → Bool → Writer → Bytes → Bytes → Writer × Bool
write_cut (some n) synced w content line = (record w { seg = some (content ++ take n line) }, false)
write_cut none false w content line = (record w { seg = some (content ++ line) }, false)
write_cut none true w content line =
    (record w { seg = some (content ++ line); written = w.written + length line }, true)

unfoldable pub write_line : Served → Writer → Bytes → Option Bytes → Writer × Bool
unfolding write_cut
write_line fs w line none = (w, false)
write_line fs w line (some content) = write_cut fs.cut fs.synced w content line

after_rotate : Served → Bytes → Writer × Bool → Writer × Bool
unfolding write_line
after_rotate fs line (w, false) = (w, false)
after_rotate fs line (w, true) = write_line fs w line w.seg

-- `appendLine`; the second part is whether it returns no error.
unfoldable pub append_line : Served → Writer → Bytes → Writer × Bool
unfolding rotate must_rotate write_line after_rotate
append_line fs w line =
    if w.closed
    then (w, false)
    else if must_rotate w line w.seg
    then after_rotate fs line (rotate fs w w.seg)
    else write_line fs w line w.seg

close_seg : Writer → Option Bytes → Writer
close_seg w none = w
close_seg w (some content) = record w { before = w.before ++ (content ∷ []); seg = none }

-- `Close`.
unfoldable pub close : Writer → Writer
unfolding close_seg
close w = if w.closed then w else close_seg record w { closed = true } w.seg
