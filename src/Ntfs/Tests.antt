-- ===== src/Ntfs/Tests.antt =====
-- Runs of CORE/src/fs/ntfs/ntfs.c, and its theorem at a concrete input.
use supernova_os.Prelude.{◌≡◌, refl, List, [], ◌∷◌, arith, get_or}
use supernova_os.Ntfs.{Memory, lcn, read_number, extend, convert_loop, ntfs_convert_lcn}
use supernova_os.Ntfs.Runs.{Run, locate, ntfs_convert_lcn-locate}

-- Two runs: 0x18 clusters from 0x5634 on, and 8 from 16 clusters in front of there.
abbrev run_bytes : Memory
run_bytes a = get_or (0x21 ∷ 0x18 ∷ 0x34 ∷ 0x56 ∷ 0x11 ∷ 0x08 ∷ 0xf0 ∷ 0 ∷ []) a 0

abbrev two_runs : List Run
two_runs =
    record { counts = 1; offsets = 2; count = 0x18; delta = 0x5634 }
    ∷ record { counts = 1; offsets = 1; count = 8; delta = 0xfffffffffffffff0 }
    ∷ []

second_run : ntfs_convert_lcn run_bytes 0 8 0x1a ≡ lcn 0x5626
unfolding ntfs_convert_lcn convert_loop read_number extend
second_run = refl

ntfs_convert_lcn-locate_example : ntfs_convert_lcn run_bytes 0 8 0x1a ≡ locate two_runs 0 0x1a
ntfs_convert_lcn-locate_example = ntfs_convert_lcn-locate run_bytes 0 8 0x1a two_runs (omega arith)
