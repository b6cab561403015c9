-- ===== src/Listing.antt =====
-- src/listing.c: the lines of the listing, and how they are printed; src/assemble.c: those of lines that emit.
-- A span is read as it is when its line is added: what is emitted later goes behind those bytes. Bytes
-- that are read from outside of a span are a parameter.
pub mod Grown
pub mod Columns
use asm.Prelude.{
  ℕ, zero, suc, ◌+◌, ◌-◌, ◌%◌, Bool, Option, none, some, List, [], ◌∷◌, ◌++◌, ltb, ◌==◌, length,
  get_or, replicate, if◌then◌else◌,
}
use asm.Prelude.Int.{ℤ, pos, negsuc, ◌+ℤ◌, ◌-ℤ◌, int32, uint16, ltb_ℤ, eqb_ℤ}
use asm.Text.{Bytes}
use asm.Section.{Span, Asm, size}
use asm.Output.Hex.{hex}

-- struct listing_line
pub record ListingLine : Type 0 where
  pub pc : ℤ
  pub nbytes : ℤ
  pub span : Option Span
  pub text : Bytes

unfoldable pub listing_add_line :
    Bool → ℤ → ℤ → Option Span → Bytes → List ListingLine → List ListingLine
listing_add_line listing_required pc nbytes span text listing_lines =
    if listing_required
    then listing_lines ++ record { pc = pc; nbytes = nbytes; span = span; text = text } ∷ []
    else listing_lines

-- The calls of src/assemble.c, assemble_prog, for a line that emits: `old` is the state before its
-- operation, `new` the one after it.
unfoldable pub instruction_line : Asm → Asm → Bytes → ListingLine
instruction_line old new text = record {
  pc = pos (uint16 old.cur.pc);
  nbytes = int32 (new.cur.pc -ℤ old.cur.pc);
  span = new.cur.span;
  text = text;
}

-- For a pseudo-operation on data, the span only where the address that it ends at is the program counter.
abbrev pub ends_at_pc : ℤ → Option Span → Option Span
ends_at_pc pc none = none
ends_at_pc pc (some span) =
    if eqb_ℤ pc (int32 (pos ((span.put + size span) % 4294967296))) then some span else none

unfoldable pub data_line : Asm → Asm → Bytes → ListingLine
data_line old new text = record {
  pc = pos (uint16 old.cur.pc);
  nbytes = int32 (new.cur.pc -ℤ old.cur.pc);
  span = ends_at_pc new.cur.pc new.cur.span;
  text = text;
}

abbrev pub space : ℕ
space = 0x20

-- the address column
unfoldable pub address_column : ℤ → Bytes
address_column pc = if ltb_ℤ pc (pos 0) then [] else hex 4 (uint16 pc) ++ replicate 2 space

module _ (outside : ℤ → ℕ) where
  -- span->data[i]
  abbrev byte_at : Span → ℤ → ℕ
  byte_at span (pos i) = get_or span.data_bytes i (outside (pos i))
  byte_at span (negsuc i) = outside (negsuc i)

  -- the loop over `nbytes` bytes, from the index `i + offset` on
  unfoldable pub byte_columns : Span → ℕ → ℤ → Bytes
  byte_columns span zero index = []
  byte_columns span (suc nbytes) index =
      hex 2 (byte_at span index % 256) ++ byte_columns span nbytes (index +ℤ pos 1)

  abbrev count : ℤ → ℕ
  count (pos n) = n
  count (negsuc n) = 0

  abbrev columns_of : Option Span → ℤ → ℤ → Bytes
  columns_of none pc nbytes = []
  columns_of (some span) pc nbytes =
      if span.allocated == 0 then [] else byte_columns span (count nbytes) (int32 (pc -ℤ span.org))

  -- The bytes of the line; a span without a buffer has none.
  unfoldable pub data_column : ListingLine → Bytes
  unfolding byte_columns
  data_column l = columns_of l.span l.pc l.nbytes

-- At least one space, and spaces up to column 22.
abbrev pub gap : ℕ → ℕ
gap col = if ltb (col + 1) 22 then 22 - col else 1

-- The text with its tabs expanded; `col` is the column that it starts in.
unfoldable pub expand_tabs : ℕ → Bytes → Bytes
expand_tabs col [] = []
expand_tabs col (c ∷ text) =
    let after_tab = expand_tabs (col + (8 - col % 8)) text in
    let after_char = expand_tabs (col + 1) text in
    if c == 0x09 then replicate (8 - col % 8) space ++ after_tab else c ∷ after_char

module _ (outside : ℤ → ℕ) where
  abbrev before_text : ListingLine → Bytes
  before_text l = address_column l.pc ++ data_column outside l

  unfoldable pub print_line : ListingLine → Bytes
  unfolding address_column data_column expand_tabs
  print_line l =
      before_text l
      ++ replicate (gap (length (before_text l))) space
      ++ expand_tabs 0 l.text
      ++ 0x0a ∷ []

  unfoldable pub listing_print : List ListingLine → Bytes
  unfolding print_line
  listing_print [] = []
  listing_print (l ∷ listing_lines) = print_line l ++ listing_print listing_lines
