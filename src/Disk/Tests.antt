-- ===== src/Disk/Tests.antt =====
-- Runs of the enumerations of CORE/src/driver/disk/disk.c and CORE/src/fs/part.c, and their theorems at concrete inputs.
use supernova_os.Prelude.{ℕ, ◌≡◌, refl, Option, some, none, List, [], ◌∷◌, arith}
use supernova_os.Disk.Devices.{enumerate_loop, storage_enumerate, Holds, storage_enumerate-Holds}
use supernova_os.Disk.Partitions.{
  gpt_part_type, partition_enumerate, cells, partition_enumerate-Holds,
}

abbrev devices : List ℕ
devices = 9 ∷ 8 ∷ 7 ∷ []

from_second : storage_enumerate devices 8 (0 ∷ 0 ∷ 0 ∷ []) 3 ≡ (2, 8 ∷ 7 ∷ 0 ∷ [])
unfolding storage_enumerate enumerate_loop
from_second = refl

storage_enumerate-Holds_example :
    let r = storage_enumerate devices 8 (0 ∷ 0 ∷ 0 ∷ []) 3 in (r.0 ≡ 2) × Holds r.1 0 (8 ∷ 7 ∷ [])
storage_enumerate-Holds_example = storage_enumerate-Holds devices 8 (0 ∷ 0 ∷ 0 ∷ []) 3 (omega arith)

basic_data : gpt_part_type 0x4433b9e5ebd0a0a2 0xc79926b7b668c087 ≡ 2
unfolding gpt_part_type
basic_data = refl

abbrev slots : List (Option ℕ)
slots = some 5 ∷ none ∷ some 6 ∷ some 7 ∷ []

partition_enumerate-Holds_example :
    let r = partition_enumerate slots (some (0 ∷ 0 ∷ [])) 2 in
    (partition_enumerate slots none 2 ≡ (3, none)) × (r.0 ≡ 2) × Holds (cells r.1) 0 (5 ∷ 6 ∷ [])
partition_enumerate-Holds_example = partition_enumerate-Holds slots (0 ∷ 0 ∷ []) 2 (omega arith)
