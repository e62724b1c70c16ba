-- ===== src/Scsi/Tests.antt =====
-- Runs of CORE/src/driver/scsi/scsi.c, and its theorem at a concrete input.
use supernova_os.Prelude.{◌+◌, ◌≡◌, refl}
use supernova_os.Scsi.{Memory, scsi_reverse, scsi_reverse4}
use supernova_os.Scsi.Reverse.{scsi_reverse_lem}

abbrev counted : Memory
counted k = k + 10

scsi_reverse_lem_example : scsi_reverse counted 5 1 ≡ 13
scsi_reverse_lem_example = scsi_reverse_lem counted 5 1

known : scsi_reverse4 0x12345678 ≡ 0x78563412
unfolding scsi_reverse4
known = refl
