-- ===== src/Mm/Paging/Uncommit.antt =====
-- The pages that `vmm_uncommit` of CORE/src/mm/vmm.c gives back.
use supernova_os.Prelude.{
  ℕ, zero, suc, ◌+◌, ◌-◌, ◌*◌, ◌/◌, ◌%◌, ◌^◌, ◌≤◌, ◌<◌, min, max, bit_and, bit_or, bit_xor, ◌≡◌,
  refl, sym, ap, ◌∙◌, ◌≢◌, ◌↔◌, ◌⊎◌, inl, inr, Bool, true, false, not, ◌&&◌, ◌||◌, Option, none,
  some, List, [], ◌∷◌, ◌++◌, map, append_assoc, append-nil, arith, ltb, leb, ◌==◌, if◌then◌else◌,
  nonzero, ltb→lt, ltb→le, lt→ltb, le→ltb, leb→le, ==_iff, Bool-cases, Option-cases, length,
  get_elem?, get_or, set, take, drop, replicate, All, length-append, length-replicate, length-set,
  length-take, get_elem?-set_self, get_elem?-set_ne, get_elem?_out, get_elem?-append_left,
  get_elem?-append_right,
}
pub mod Erase
pub mod Pages
pub mod Unmap
pub mod Cycle
mod Tests
use supernova_os.Mm.Paging.{Memory, World, write, address_in, search_page_entry}

-- `free` is `free_physical_memory`.
module _ {S : Type 0} (free : S → ℕ → ℕ → S) (cr3 : ℕ) where
  -- What is given back for an entry, by the type of its page.
  abbrev pub give_back : ℕ → ℕ → ℕ → S → S
  give_back typ e addr s =
      let s1 = if typ == 2 then free s (address_in 2 e addr) (2 ^ 18) else s in
      let s2 = if typ == 1 then free s1 (address_in 1 e addr) (2 ^ 9) else s1 in
      free s2 (address_in 0 e addr) 1

  -- One turn of the loop.
  unfoldable pub uncommit_page : ℕ → World S → World S
  uncommit_page addr w = elim (search_page_entry w.mem cr3 addr) [
    | none ↦ w
    | some (typ, a) ↦ record { mem = write w.mem a 0; pages = give_back typ (w.mem a) addr w.pages }
  ]

  -- `while (pageCount--)`
  unfoldable pub vmm_uncommit : ℕ → ℕ → World S → World S
  vmm_uncommit addr zero w = w
  vmm_uncommit addr (suc count) w =
      vmm_uncommit ((addr + 0x1000) % 2 ^ 64) count (uncommit_page addr w)
