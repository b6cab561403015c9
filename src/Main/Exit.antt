-- ===== src/Main/Exit.antt =====
-- src/asm6809.c: when a run writes files and when it succeeds.
use asm.Prelude.{◌≡◌, refl, Bool, true, false, not, ◌&&◌, List, [], if◌then◌else◌, leb, arith}
use asm.Text.{Bytes}
use asm.Error.{
  ErrorType, none_reported, inefficient, illegal, inconsistent, out_of_range, syntax, rank,
  no_errors,
}
use asm.Error.Print.{error_print_list}
use asm.Options.{Options}
use asm.Assemble.World.{Outside, World, with_errors}
use asm.Assemble.Passes.{all_passes}
use asm.Main.{
  Surroundings, Run, Progress, read_files, write_files, consistent, after_passes, with_files,
  run_main,
}

-- Warnings only: nothing inconsistent, out of range or worse.
abbrev pub harmless : ErrorType → Bool
harmless none_reported = true
harmless inefficient = true
harmless illegal = true
harmless _ = false

-- Nothing as bad as a syntax error.
abbrev pub readable : ErrorType → Bool
readable inconsistent = true
readable out_of_range = true
readable type = harmless type

abbrev pub level_of : World → ErrorType
level_of w = w.asm.errors.level

rank-readable : (type : ErrorType) → leb (rank syntax) (rank type) ≡ not (readable type)
rank-readable type = ground arith

rank-harmless : (type : ErrorType) → leb (rank inconsistent) (rank type) ≡ not (harmless type)
rank-harmless type = ground arith

-- What is read and assembled, and the files that are written after it with the reports begun anew.
abbrev pub assembled : Outside → Options → List Bytes → World → World
assembled o p names w =
    all_passes o p.max_program_depth (read_files o names w).0 p.max_passes 0
      (read_files o names w).1

abbrev pub written : Surroundings → Outside → Options → World → Progress
written s o p w = write_files s o p (with_errors no_errors w)

abbrev Ends : Run → Bool → List (Bytes × Bytes) → Type 0
Ends r success files = (r.success ≡ success) × (r.files ≡ files)

-- Three guards, of which the first two leave no files.
guarded :
    (a b c : Bool) (unread unsettled failed done : Run)
    → unread.success ≡ false
    → unread.files ≡ []
    → unsettled.success ≡ false
    → unsettled.files ≡ []
    → failed.success ≡ false
    → failed.files ≡ done.files
    → done.success ≡ true
    → Ends
        (if not a then unread else (if not b then unsettled else (if not c then failed else done)))
        ((a && b) && c)
        (if a && b then done.files else [])
guarded false b c _ _ _ _ s1 f1 s2 f2 s3 f3 s4 = (s1, f1)
guarded true false c _ _ _ _ s1 f1 s2 f2 s3 f3 s4 = (s2, f2)
guarded true true false _ _ _ _ s1 f1 s2 f2 s3 f3 s4 = (s3, f3)
guarded true true true _ _ _ _ s1 f1 s2 f2 s3 f3 s4 = (s4, refl)

-- A run reads all files before the first pass. It succeeds exactly when after reading them no syntax
-- error or worse was reported, the passes end with warnings at most, and the files are written with no
-- syntax error or worse. Where one of the first two fails it writes no file at all; otherwise the files
-- are those that are written from the assembled program.
pub run_main-write_files :
    (s : Surroundings) (o : Outside) (p : Options) (names : List Bytes) (w : World)
    → ((run_main s o p names w).success ≡ (
        (readable (level_of (read_files o names w).1)
          && harmless (level_of (assembled o p names w)))
        && readable (level_of (written s o p (assembled o p names w)).1)))
      × ((run_main s o p names w).files ≡ (
          if readable (level_of (read_files o names w).1)
            && harmless (level_of (assembled o p names w))
          then (written s o p (assembled o p names w)).0
          else []))
unfolding run_main with_files after_passes consistent error_print_list
run_main-write_files s o p names w =
    let a = rank-readable (level_of (read_files o names w).1) in
    let b = rank-harmless (level_of (assembled o p names w)) in
    let c = rank-readable (level_of (written s o p (assembled o p names w)).1) in
    rw (a, b, c)
      (guarded (readable (level_of (read_files o names w).1))
        (harmless (level_of (assembled o p names w)))
        (readable (level_of (written s o p (assembled o p names w)).1)) _ _ _ _ refl refl refl refl
        refl refl refl)
