-- ===== src/Tests/Emission.antt =====
-- Examples of emissions into a section, of its bounds, and of the reported levels.
use asm.Prelude.{◌≡◌, refl, false, none, some, List, [], ◌∷◌, ◌++◌, arith}
use asm.Error.{inconsistent, out_of_range, no_errors, needs_pass}
use asm.Error.Level.{Call, run, needs_pass-run}
use asm.Section.{spans, section_emit}
use asm.Section.Emit.{writes, image, image-section_emit}
use asm.Section.Bounds.{InBuffer, section_emit-InBuffer}
use asm.Tests.Fixtures.{midway}

image-section_emit_example :
    image (spans (section_emit (1 ∷ 2 ∷ []) midway).cur)
    ≡ image (spans midway.cur) ++ writes 0x4002 (1 ∷ 2 ∷ [])
image-section_emit_example = image-section_emit (1 ∷ 2 ∷ []) midway

section_emit-InBuffer_example : InBuffer (section_emit (1 ∷ 2 ∷ []) midway).cur.span
section_emit-InBuffer_example =
    section_emit-InBuffer (1 ∷ 2 ∷ []) midway (omega arith) (ground arith) (ground arith)
      (omega arith, omega arith)

abbrev calls : List Call
calls = (inconsistent, none) ∷ (out_of_range, some "late") ∷ []

needs_pass-run_example : needs_pass (run calls no_errors) ≡ false
needs_pass-run_example = needs_pass-run calls refl
