-- ===== src/Tests/Files.antt =====
-- Examples of output files: a program of one span.
use asm.Prelude.{◌≡◌, refl, false, some, [], ◌∷◌, arith}
use asm.Prelude.Int.{pos}
use asm.Error.{no_errors}
use asm.Node.{node, int, attr_none}
use asm.Section.{Section}
use asm.Section.Emit.{image}
use asm.Coalesce.{section_coalesce_all}
use asm.Output.{coco}
use asm.Output.Coco.{load_coco, blocks_of, entry_of, load_coco-coco}
use asm.Output.Hex.{output_motorola_srec}
use asm.Output.Hex.Loader.{load_srec}
use asm.Output.Hex.Readback.{line_count, load_srec-output_motorola_srec}
use asm.Tests.Fixtures.{first_span}

load_coco-coco_example :
    load_coco 2 (coco (first_span ∷ []) (some 0x4001))
    ≡ some (record {
      blocks = blocks_of (first_span ∷ []);
      entry = entry_of (first_span ∷ []) (some 0x4001);
    })
load_coco-coco_example = load_coco-coco (first_span ∷ []) (some 0x4001) refl (omega arith)

abbrev one_section : Section
one_section = record {
  closed = [];
  span = some first_span;
  pass = 0;
  line_number = 0;
  pc = pos 0x4002;
  put = 0x4002;
  dp = 0;
  last_pc = pos 0;
  last_put = 0;
}

load_srec-output_motorola_srec_example :
    load_srec (line_count (section_coalesce_all false (one_section ∷ []) no_errors).0) (
      output_motorola_srec (pos 0) (node (int (pos 0x4001)) attr_none) (one_section ∷ []) no_errors)
    ≡ some (record {
      image = image (section_coalesce_all false (one_section ∷ []) no_errors).0;
      entry = 0x4001;
    })
unfolding section_coalesce_all
load_srec-output_motorola_srec_example =
    load_srec-output_motorola_srec (pos 0) (node (int (pos 0x4001)) attr_none) (one_section ∷ [])
      no_errors refl (omega arith)
