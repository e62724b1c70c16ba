-- ===== src/Storage/Tests.antt =====
-- Runs of CORE/src/driver/nvme/nvme.c and CORE/src/driver/ahci/ata.c, and their theorems at concrete inputs.
use supernova_os.Prelude.{
  ℕ, ◌+◌, ◌*◌, ◌%◌, ◌^◌, ◌-◌, min, ◌<◌, ◌≡◌, refl, ◌≢◌, Bool, true, false, some, List, [], ◌∷◌,
  arith, ◌==◌, if◌then◌else◌, length, get_elem?, All,
}
use supernova_os.Storage.Nvme.{
  Command, Submission, nvm_express_submission, Completion, Consumer, nvm_express_completion,
  Machine, Driver, nvm_express_transfer, read_loop, nvm_express_read,
}
use supernova_os.Storage.Nvme.Queues.{
  IsQueue, nvm_express_submission-IsQueue, Takes, nvm_express_completion-IsConsumer,
}
use supernova_os.Storage.Nvme.Read.{nvm_express_read_lem}
use supernova_os.Storage.Ata.{Request, Port, request, ahci_ata_read}
use supernova_os.Storage.Ata.Regions.{bytes, request-covers}
use supernova_os.Storage.Ata.Read.{other, ahci_ata_read-Agree}

abbrev blank : Command
blank = record { opco = 0; prp1 = 0; nsid = 0; lba0 = 0; cont = 0; coid = 0 }

abbrev queue : Submission
queue = record { ring = blank ∷ blank ∷ []; bell = 0; coid = 0xfffe; size = 1; indx = 1 }

queue-IsQueue : IsQueue queue
queue-IsQueue = record { room = refl; byte = omega arith; inside = omega arith; word = omega arith }

nvm_express_submission-IsQueue_example :
    let r = nvm_express_submission queue blank in
    IsQueue r.1
    × (0 < r.0)
    × (r.0 < 0xffff)
    × (r.0 ≡ (if 0xfffe == 0xfffe then 1 else 0xfffe + 1))
    × (r.1.coid ≡ r.0)
    × (r.1.indx ≡ (1 + 1) % (1 + 1))
    × (r.1.bell ≡ r.1.indx)
    × (r.1.size ≡ 1)
    × (get_elem? r.1.ring 1 ≡ some (record blank { coid = r.0 }))
    × ((i : ℕ) → i ≢ 1 → get_elem? r.1.ring i ≡ get_elem? queue.ring i)
nvm_express_submission-IsQueue_example = nvm_express_submission-IsQueue queue blank queue-IsQueue

abbrev consumer : Consumer
consumer = record { bell = 1; size = 1; indx = 1; cycl = 1 }

abbrev written : List Completion
written = record { coid = 4; stat = 0; phas = 1 } ∷ record { coid = 5; stat = 0; phas = 1 } ∷ []

nvm_express_completion-IsConsumer_example :
    Takes consumer 1 0 (written ∷ []) (nvm_express_completion consumer (written ∷ []))
nvm_express_completion-IsConsumer_example =
    nvm_express_completion-IsConsumer consumer 1 0 (written ∷ [])
      (record { count = refl; byte = omega arith; inside = omega arith; phase = refl }) (refl, tt)

-- A controller that completes each command, and counts them.
abbrev counting : Machine
counting = record {
  State = ℕ;
  physical_address = λ a. a;
  complete = λ q s. (record { coid = q.coid; stat = 0; phas = 1 }, s + 1);
  copy = λ to from n s. s;
}

abbrev driver : Driver counting
driver = record { queue = queue; stat = 0; state = 0 }

eight_fail : (nvm_express_read counting driver 1 4096 8192 0 8).0 ≡ 1
unfolding nvm_express_read read_loop nvm_express_transfer nvm_express_submission
eight_fail = refl

three_pass : (nvm_express_read counting driver 1 4096 8192 0 3).1.state ≡ 1
unfolding nvm_express_read read_loop nvm_express_transfer nvm_express_submission
three_pass = refl

nvm_express_read_lem_example : nvm_express_read counting driver 1 4096 8192 0 8 ≡ (1, driver)
nvm_express_read_lem_example =
    nvm_express_read_lem counting driver 1 4096 8192 0 8 (omega arith) (omega arith)

-- A disk whose state is the numbers of sectors that it was asked for.
abbrev disk : Port
disk = record {
  State = List ℕ;
  physical_address = λ a. a;
  busy = λ s. false;
  run = λ r s. (false, r.lba0 ∷ s);
  copy = λ to from n s. s;
}

request-covers_example :
    let r = request disk 0x1234 0x10000 20 0x25 in
    ((i : ℕ)
      → i * 8 < 20
      → get_elem? r.prdt i
        ≡ some (record {
          addr = (0x10000 + i * 2 ^ 12) % 2 ^ 64;
          bcnt = min 8 (20 - i * 8) * 2 ^ 9 - 1;
        }))
    × (bytes r.prdt ≡ 20 * 2 ^ 9)
    × (length r.prdt ≡ r.rdtl)
    × All (λ g. g.bcnt < 2 ^ 12) r.prdt
    × (r.lba0
          + 2 ^ 8 * r.lba1
          + 2 ^ 16 * r.lba2
          + 2 ^ 24 * r.lba3
          + 2 ^ 32 * r.lba4
          + 2 ^ 40 * r.lba5
        ≡ 0x1234 % 2 ^ 48)
    × (r.cont ≡ 20)
    × (r.cmmd ≡ 0x25)
request-covers_example = request-covers disk 0x1234 0x10000 20 0x25 (omega arith) (omega arith)

-- A disk that fails on every command but those for the sector 7.
abbrev picky : Request → List ℕ → Bool × List ℕ
picky r s = if r.lba0 == 7 then (false, 7 ∷ s) else (true, s)

agree_at_7 :
    (buf count : ℕ) (s : List ℕ)
    → disk.run (request disk 7 buf count 0x25) s ≡ picky (request disk 7 buf count 0x25) s
unfolding request
agree_at_7 buf count s = refl

ahci_ata_read-Agree_example :
    ahci_ata_read disk [] 1 4096 8193 7 20 ≡ ahci_ata_read (other disk picky) [] 1 4096 8193 7 20
ahci_ata_read-Agree_example = ahci_ata_read-Agree disk picky [] 1 4096 8193 7 20 agree_at_7
