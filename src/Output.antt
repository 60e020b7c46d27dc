-- ===== src/Output.antt =====
-- What the program prints, piece by piece: a text as it stands in the source, a number, a pointer
-- as %p or operator<< shows it, or a C string.
use Prim.Native.String.{String}
use ompt_dependency_tracker.Base.{ℕ, List}

pub data Piece : Type 0 where
  text : String → Piece
  number : ℕ → Piece
  pointer : ℕ → Piece
  c_string : List ℕ → Piece

abbrev pub Output : Type 0
Output = List Piece
