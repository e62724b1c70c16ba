-- ===== src/Mm/Paging/Uncommit/Cycle.antt =====
-- `virtual_mapping` of CORE/src/mm/vmm.c and then `vmm_uncommit` of the same pages.
use supernova_os.Prelude.{
  ℕ, zero, suc, ◌+◌, ◌*◌, ◌/◌, ◌%◌, ◌^◌, ◌≤◌, ◌<◌, ◌≡◌, refl, sym, ap, ◌∙◌, ◌≢◌, Option, none, some,
  arith,
}
use mathlib.Core.Path.{subst}
use supernova_os.Mm.Paging.{Memory, World, page_size, physical_address, virtual_mapping}
use supernova_os.Mm.Paging.Fresh.{Laws}
use supernova_os.Mm.Paging.Refine.{leaf}
use supernova_os.Mm.Paging.Numbers.{page_number}
use supernova_os.Mm.Paging.Loop.{nth, nth_zero, nth-suc, Fits, IsPaged, Maps, Result}
use supernova_os.Mm.Paging.Space.{
  Translated, virtual_mapping-Maps, physical_address-virtual_mapping,
}
use supernova_os.Mm.Paging.Uncommit.{vmm_uncommit}
use supernova_os.Mm.Paging.Uncommit.Unmap.{
  Covered, AllSmall, release, released, vmm_uncommit-Unmapped,
}

module _ {S : Type 0} (free : S → ℕ → ℕ → S) where
  -- The frames from `phy` on, given back one after the other.
  unfoldable pub frames_back : ℕ → ℕ → S → S
  frames_back phy zero s = s
  frames_back phy (suc count) s = frames_back (phy + 0x1000) count (free s phy 1)

module _ {S : Type 0} (alloc : S → ℕ × S) (L : Laws alloc) (free : S → ℕ → ℕ → S) (cr3 : ℕ) where
  mapped-AllSmall :
      (va phy attr count : ℕ) (w w' : World S)
      → Maps alloc L cr3 w 0 va phy attr count w'
      → AllSmall w'.mem cr3 va count
  mapped-AllSmall va phy attr count w w' m k t e l q =
      let s : some (0, leaf 0 (nth 0 phy k) attr) ≡ some (t, e) =
        sym (m.hit (nth 0 va k) k l refl) ∙ q in
      ground (arith, s)

  -- A page that holds an address of the mapping is a page of the mapping.
  not-Covered :
      (va phy attr count va' : ℕ) (w w' : World S)
      → Maps alloc L cr3 w 0 va phy attr count w'
      → ((k : ℕ) → k < count → page_number 0 va' ≢ page_number 0 (nth 0 va k))
      → ¬ Covered w'.mem cr3 va count va'
  not-Covered va phy attr count va' w w' m away (k, l, (t, e, q, p)) =
      let tz = mapped-AllSmall va phy attr count w w' m k t e l q in
      away k l (subst (λ (x : ℕ). page_number x va' ≡ page_number x (nth 0 va k)) tz p)

  released-frames :
      (count va phy : ℕ) (m : Memory) (s : S)
      → va < 2 ^ 64
      → ((k : ℕ) → k < count → physical_address m cr3 (nth 0 va k) ≡ some (phy + k * 4096))
      → released free cr3 m va count s ≡ frames_back free phy count s
  unfolding released frames_back
  released-frames zero va phy m s lv h = refl
  released-frames (suc count) va phy m s lv h =
      let va' = (va + 0x1000) % 2 ^ 64 in
      let first : physical_address m cr3 va ≡ some phy =
        subst (λ (x : ℕ). physical_address m cr3 x ≡ some phy) (nth_zero 0 va lv)
          (h 0 (omega arith) ∙ ap some (let e : phy + 0 * 4096 ≡ phy = omega arith in e)) in
      ap (λ (o : Option ℕ). released free cr3 m va' count (release free cr3 o s)) first
      ∙ released-frames count va' (phy + 0x1000) m (free s phy 1) (omega arith) (λ k l.
        ap (physical_address m cr3) (nth-suc 0 va k (omega arith))
        ∙ h (suc k) (omega arith)
        ∙ ap some (let e : phy + suc k * 4096 ≡ phy + 4096 + k * 4096 = omega arith in e))

  page_address :
      (va count k : ℕ)
      → va % 4096 ≡ 0
      → k < count
      → (nth 0 va k ≡ (va / page_size 0 * page_size 0 + k * 4096) % 2 ^ 64)
  page_address va count k h l = omega arith

  -- Pages of 4 KB are mapped, and what was mapped is given back: the pages are translated no more,
  -- every other address is translated as before the mapping, and the frames come back one after the
  -- other, each once. The addresses and the frames start at a page, the frames end by 2 ^ 63, the
  -- tables are a tree outside of the free memory, no larger page is in the way, and no allocation
  -- of a table fails.
  pub vmm_uncommit-virtual_mapping :
      (phy va count attr : ℕ) (w w' : World S)
      → va < 2 ^ 64
      → va % 4096 ≡ 0
      → phy % 4096 ≡ 0
      → count * page_size 0 ≤ 2 ^ 48
      → phy + count * page_size 0 ≤ 2 ^ 63
      → IsPaged alloc L cr3 w
      → Fits w.mem cr3 0 va count
      → virtual_mapping alloc cr3 phy va count 0 attr w ≡ some w'
      → let u = vmm_uncommit free cr3 va count w' in
        ((va' k : ℕ)
          → k < count
          → page_number 0 va' ≡ page_number 0 (nth 0 va k)
          → physical_address u.mem cr3 va' ≡ none)
        × ((va' : ℕ)
            → ((k : ℕ) → k < count → page_number 0 va' ≢ page_number 0 (nth 0 va k))
            → physical_address u.mem cr3 va' ≡ physical_address w.mem cr3 va')
        × (u.pages ≡ frames_back free phy count w'.pages)
  vmm_uncommit-virtual_mapping phy va count attr w w' lv hv hp h lp i fits e =
      let m = subst (Result alloc L cr3 w 0 va (phy / page_size 0 * page_size 0) attr count) e (
        virtual_mapping-Maps alloc L cr3 phy va count 0 attr w (omega arith) lv (omega arith) h i
          fits) in
      let tr = subst (Translated alloc L cr3 w 0 va phy count) e (
        physical_address-virtual_mapping alloc L cr3 phy va count 0 attr w (omega arith) lv h lp i
          fits) in
      let f = phy / page_size 0 * page_size 0 in
      let u = vmm_uncommit-Unmapped free cr3 va count w' lv h m.paged.tree in
      (
        u.gone,
        λ va' no. u.rest va' (not-Covered va f attr count va' w w' m no) ∙ tr.1 va' no,
        u.pages (mapped-AllSmall va f attr count w w' m)
            ∙ released-frames count va phy w'.mem w'.pages lv (λ k l.
              ap (physical_address w'.mem cr3) (page_address va count k hv l)
              ∙ tr.0 (k * 4096) (omega arith)
              ∙ ap some (
                  let q : phy / page_size 0 * page_size 0 + k * 4096 ≡ phy + k * 4096 =
                    omega arith in
                  q)),
      )
