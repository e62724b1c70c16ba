-- ===== src/Storage/Nvme.antt =====
-- The queues and transfers of CORE/src/driver/nvme/nvme.c.
use supernova_os.Prelude.{
  ℕ, zero, suc, ◌+◌, ◌-◌, ◌*◌, ◌/◌, ◌%◌, ◌^◌, ◌≤◌, ◌<◌, min, max, bit_and, bit_or, bit_xor, ◌≡◌,
  refl, sym, ap, ◌∙◌, ◌≢◌, ◌↔◌, ◌⊎◌, inl, inr, Bool, true, false, not, ◌&&◌, ◌||◌, Option, none,
  some, List, [], ◌∷◌, ◌++◌, map, append_assoc, append-nil, arith, ltb, leb, ◌==◌, if◌then◌else◌,
  nonzero, ltb→lt, ltb→le, lt→ltb, le→ltb, leb→le, ==_iff, Bool-cases, Option-cases, length,
  get_elem?, get_or, set, take, drop, replicate, All, length-append, length-replicate, length-set,
  length-take, get_elem?-set_self, get_elem?-set_ne, get_elem?_out, get_elem?-append_left,
  get_elem?-append_right,
}
pub mod Queues
pub mod Read

-- The fields of NVM_EXPRESS_SUBMISSION_READ that are set.
pub record Command : Type 0 where
  pub opco : ℕ
  pub prp1 : ℕ
  pub nsid : ℕ
  pub lba0 : ℕ
  pub cont : ℕ
  pub coid : ℕ

-- NVM_EXPRESS_SUBMISSION_QUEUE, with what is written to its doorbell last.
pub record Submission : Type 0 where
  pub ring : List Command
  pub bell : ℕ
  pub coid : ℕ
  pub size : ℕ
  pub indx : ℕ

-- `++queue->COID`, a WORD that passes over 0xFFFF and 0.
abbrev pub next_coid : ℕ → ℕ
next_coid coid = let c = (coid + 1) % 2 ^ 16 in if c == 0xffff || c == 0 then 1 else c

-- The index behind `indx` in a queue, a BYTE.
abbrev pub next_indx : ℕ → ℕ → ℕ
next_indx size indx = if leb size indx then 0 else (indx + 1) % 2 ^ 8

unfoldable pub nvm_express_submission : Submission → Command → ℕ × Submission
nvm_express_submission q sub =
    let c = next_coid q.coid in
    let i = next_indx q.size q.indx in
    (
      c,
      record {
        ring = set q.ring q.indx (record sub { coid = c });
        bell = i;
        coid = c;
        size = q.size;
        indx = i;
      },
    )

-- NVM_EXPRESS_COMPLETION: the identifier of the command, its status and the phase.
pub record Completion : Type 0 where
  pub coid : ℕ
  pub stat : ℕ
  pub phas : ℕ

-- NVM_EXPRESS_COMPLETION_QUEUE. The controller writes the ring, so it is no part of the state.
pub record Consumer : Type 0 where
  pub bell : ℕ
  pub size : ℕ
  pub indx : ℕ
  pub cycl : ℕ

-- What the loop does behind the test of the phase.
abbrev pub consumed : Consumer → Consumer
consumed q =
    if q.indx == q.size
    then record { bell = 0; size = q.size; indx = 0; cycl = bit_xor q.cycl 1 }
    else record {
      bell = (q.indx + 1) % 2 ^ 8;
      size = q.size;
      indx = (q.indx + 1) % 2 ^ 8;
      cycl = q.cycl;
    }

abbrev pub blank_completion : Completion
blank_completion = record { coid = 0; stat = 0; phas = 0 }

-- The loop over what the controller has written to the ring at each turn: `none` where it still waits
-- at the end.
unfoldable pub nvm_express_completion :
    Consumer → List (List Completion) → Option (Completion × Consumer)
nvm_express_completion q [] = none
nvm_express_completion q (ring ∷ later) =
    let wait = nvm_express_completion q later in
    let c = get_or ring q.indx blank_completion in
    if not (c.phas == q.cycl) then wait else some (c, consumed q)

-- What the driver relies on: the mapping of addresses, and the controller, which runs the command that
-- a doorbell announces and completes it.
pub record Machine : Type 1 where
  pub State : Type 0
  pub physical_address : ℕ → ℕ
  pub complete : Submission → State → Completion × State
  pub copy : ℕ → ℕ → ℕ → State → State

module _ (M : Machine) where
  pub record Driver : Type 0 where
    pub queue : Submission
    pub stat : ℕ
    pub state : M.State

  abbrev pub transferred : Driver → ℕ × Submission → ℕ × Driver
  transferred d (coid, q) =
      let r = M.complete q d.state in
      let d' : Driver = record { queue = q; stat = d.stat; state = r.1 } in
      if not (coid == r.0.coid)
      then (2, d')
      else if nonzero r.0.stat
      then (3, record d' { stat = r.0.stat })
      else (0, d')

  -- `page0 != page1`
  abbrev pub leaves_page : ℕ → ℕ → Bool
  leaves_page address count =
      let page = address / 2 ^ 12 * 2 ^ 12 in
      not (page == (page + count * 2 ^ 9) % 2 ^ 64 / 2 ^ 12 * 2 ^ 12)

  unfoldable pub nvm_express_transfer : Driver → ℕ → ℕ → ℕ → ℕ → ℕ → ℕ × Driver
  nvm_express_transfer d nsid lba buf count io =
      let address = M.physical_address buf in
      if leaves_page address count
      then (1, d)
      else transferred d (
          nvm_express_submission d.queue (record {
            opco = 1 + io;
            prp1 = address / 2 ^ 12 * 2 ^ 12;
            nsid = nsid;
            lba0 = lba;
            cont = count % 2 ^ 16;
            coid = 0;
          }))

  -- `copied` is the copy out of the page of the device, where the buffer is not aligned.
  abbrev pub copied : Bool → ℕ → ℕ → ℕ → Driver → Driver
  copied aligned buf page rc d =
      if aligned then d else record d { state = M.copy buf page (rc * 2 ^ 9) d.state }

  -- The loop of `nvm_express_read`, on fuel: each turn takes up to 8 sectors off the count.
  unfoldable pub read_loop : ℕ → Bool → Driver → ℕ → ℕ → ℕ → ℕ → ℕ → ℕ × Driver
  read_loop zero aligned d nsid page buf lba cont = (0, d)
  read_loop (suc fuel) aligned d nsid page buf lba cont =
      let rc = min 8 cont in
      let r = nvm_express_transfer d nsid lba (if aligned then buf else page) cont 1 in
      let rest =
        read_loop fuel aligned (copied aligned buf page rc r.1) nsid page
          ((buf + rc * 2 ^ 9) % 2 ^ 64) ((lba + rc) % 2 ^ 64) (cont - rc) in
      if cont == 0 then (0, d) else if nonzero r.0 then (1, r.1) else rest

  -- `page` is the device's own page, for a buffer that is not aligned to one.
  unfoldable pub nvm_express_read : Driver → ℕ → ℕ → ℕ → ℕ → ℕ → ℕ × Driver
  nvm_express_read d nsid page buf lba count =
      read_loop (suc count) (buf % 2 ^ 12 == 0) d nsid page buf lba count
