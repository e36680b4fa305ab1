-- ===== src/Prelude/File.antt =====
-- Files that are read: what stdio.h does for these programs.
use Prim.Native.Nat.{ℕ}
use mathlib.Core.Bool.{Bool}
use mathlib.Core.List.{List}
use csf303_computer_networks.Prelude.Tests.{ltb}
use csf303_computer_networks.Prelude.Lists.{length, take, drop}

-- An open `FILE *`: the bytes that are not read yet, and the end-of-file indicator.
pub record Stream : Type 0 where
  pub rest : List ℕ
  pub eof : Bool

-- `fread`: as many of the `n` bytes as there are; a short read sets the indicator.
abbrev pub fread : ℕ → Stream → List ℕ × Stream
fread n s = (take n s.rest, record { rest = drop n s.rest; eof = ltb (length s.rest) n })
