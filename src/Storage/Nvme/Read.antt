-- ===== src/Storage/Nvme/Read.antt =====
-- What `nvm_express_read` in CORE/src/driver/nvme/nvme.c reads.
use supernova_os.Prelude.{
  ℕ, zero, suc, ◌+◌, ◌-◌, ◌*◌, ◌%◌, ◌^◌, ◌≤◌, ◌<◌, min, ◌≡◌, refl, ◌∙◌, inl, inr, Bool, true, arith,
  ltb, leb, ◌==◌, if◌then◌else◌, nonzero, ltb→le, Bool-cases,
}
use supernova_os.Storage.Nvme.{
  Machine, Driver, leaves_page, nvm_express_transfer, copied, read_loop, nvm_express_read,
}

-- A transfer from the start of a page leaves it from 8 sectors on.
leaves_page_iff :
    (M : Machine) (address count : ℕ)
    → address < 2 ^ 63
    → count < 2 ^ 32
    → leaves_page M address count ≡ leb 8 count
leaves_page_iff M address count ha hc = ground arith

module _ (M : Machine) where
  -- The result of the one transfer of a read of fewer than 8 sectors.
  abbrev pub after_one : Bool → ℕ → ℕ → ℕ → ℕ × Driver M → ℕ × Driver M
  after_one aligned buf page count (code, d) =
      if nonzero code then (1, d) else (0, copied M aligned buf page count d)

  loop_step :
      (fuel : ℕ) (aligned : Bool) (d : Driver M) (nsid page buf lba cont : ℕ)
      → (read_loop M (suc fuel) aligned d nsid page buf lba cont ≡ (
          let r = nvm_express_transfer M d nsid lba (if aligned then buf else page) cont 1 in
          if cont == 0
          then (0, d)
          else if nonzero r.0
          then (1, r.1)
          else read_loop M fuel aligned
              (copied M aligned buf page (min 8 cont) r.1)
              nsid
              page
              ((buf + min 8 cont * 2 ^ 9) % 2 ^ 64)
              ((lba + min 8 cont) % 2 ^ 64)
              (cont - min 8 cont)))
  unfolding read_loop
  loop_step fuel aligned d nsid page buf lba cont = refl

  loop_done :
      (fuel : ℕ) (aligned : Bool) (d : Driver M) (nsid page buf lba : ℕ)
      → read_loop M (suc fuel) aligned d nsid page buf lba 0 ≡ (0, d)
  loop_done fuel aligned d nsid page buf lba = loop_step fuel aligned d nsid page buf lba 0

  refused :
      (d : Driver M) (nsid lba buf count : ℕ)
      → M.physical_address buf < 2 ^ 63
      → 8 ≤ count
      → count < 2 ^ 32
      → nvm_express_transfer M d nsid lba buf count 1 ≡ (1, d)
  unfolding nvm_express_transfer
  refused d nsid lba buf count ha lo hi =
      let e : leaves_page M (M.physical_address buf) count ≡ true =
        leaves_page_iff M (M.physical_address buf) count ha hi ∙ ground arith in
      rw e refl

  -- Behind a transfer of all sectors the loop ends.
  last_turn :
      (fuel : ℕ) (aligned : Bool) (nsid page buf next lba count : ℕ) (r : ℕ × Driver M)
      → 0 < fuel
      → count < 8
      → (if nonzero r.0
          then (1, r.1)
          else read_loop M fuel aligned
              (copied M aligned buf page (min 8 count) r.1)
              nsid
              page
              next
              lba
              (count - min 8 count))
        ≡ after_one aligned buf page count r
  last_turn zero aligned nsid page buf next lba count r hf hc = absurd (omega arith)
  last_turn (suc fuel) aligned nsid page buf next lba count (code, d) hf hc =
      let m : min 8 count ≡ count = omega arith in
      let z : count - count ≡ 0 = omega arith in
      rw (m, z, loop_done fuel aligned (copied M aligned buf page count d) nsid page next lba) refl

  -- A read of no sectors does nothing. One of fewer than 8 is a single transfer of all of them, copied
  -- out where the buffer is not aligned. One of 8 or more fails before anything is transferred.
  pub nvm_express_read_lem :
      (d : Driver M) (nsid page buf lba count : ℕ)
      → M.physical_address (if buf % 2 ^ 12 == 0 then buf else page) < 2 ^ 63
      → count < 2 ^ 32
      → nvm_express_read M d nsid page buf lba count ≡ (
          if count == 0
          then (0, d)
          else if ltb count 8
          then after_one
              (buf % 2 ^ 12 == 0)
              buf
              page
              count
              (nvm_express_transfer M d nsid lba (if buf % 2 ^ 12 == 0 then buf else page) count 1)
          else (1, d))
  unfolding nvm_express_read
  nvm_express_read_lem d nsid page buf lba count ha hc =
      let target = if buf % 2 ^ 12 == 0 then buf else page in
      rw (loop_step count (buf % 2 ^ 12 == 0) d nsid page buf lba count)
        (elim (Bool-cases (count == 0)) [
          | inl z ↦ rw z refl
          | inr z ↦ rw z (elim (Bool-cases (ltb count 8)) [
            | inl e ↦ rw e (
                last_turn count (buf % 2 ^ 12 == 0) nsid page buf
                  ((buf + min 8 count * 2 ^ 9) % 2 ^ 64) ((lba + min 8 count) % 2 ^ 64) count
                  (nvm_express_transfer M d nsid lba target count 1) (ground arith) (ground arith))
            | inr e ↦
                let r : nvm_express_transfer M d nsid lba target count 1 ≡ (1, d) =
                  refused d nsid lba target count ha (ltb→le count 8 e) hc in
                rw (e, r) refl
          ])
        ])
