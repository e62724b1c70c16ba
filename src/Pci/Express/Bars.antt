-- ===== src/Pci/Express/Bars.antt =====
-- The base addresses that CORE/src/driver/pci/pcie.c reads.
use supernova_os.Prelude.{
  ℕ, suc, ◌+◌, ◌*◌, ◌/◌, ◌%◌, ◌^◌, ◌<◌, ◌≡◌, refl, ap, ◌∙◌, Bool, true, false, List, [], ◌∷◌, ◌++◌,
  arith, ◌==◌, if◌then◌else◌, length, get_or,
}
use supernova_os.Pci.Express.{pcie_cfg_get_base_address}

-- What a base address register may stand for: ports, memory of 32 bits or of 64, with the bit of
-- memory that may be fetched ahead.
pub data Bar : Type 0 where
  ports : (addr : ℕ) → Bar
  memory32 : (addr : ℕ) (ahead : Bool) → Bar
  memory64 : (addr : ℕ) (ahead : Bool) → Bar

abbrev pub address : Bar → ℕ
address (ports addr) = addr
address (memory32 addr ahead) = addr
address (memory64 addr ahead) = addr

-- The address is aligned and of the width of the register.
abbrev pub IsBar : Bar → Type 0
IsBar (ports addr) = (addr % 4 ≡ 0) × (addr < 2 ^ 32)
IsBar (memory32 addr ahead) = (addr % 16 ≡ 0) × (addr < 2 ^ 32)
IsBar (memory64 addr ahead) = (addr % 16 ≡ 0) × (addr < 2 ^ 64)

abbrev pub ahead_bit : Bool → ℕ
ahead_bit b = if b then 8 else 0

-- The registers that PCI has for it.
abbrev pub encode : Bar → List ℕ
encode (ports addr) = (addr + 1) ∷ []
encode (memory32 addr ahead) = (addr + ahead_bit ahead) ∷ []
encode (memory64 addr ahead) = (addr % 2 ^ 32 + 4 + ahead_bit ahead) ∷ addr / 2 ^ 32 ∷ []

get_or-here : (pre rest : List ℕ) (x d : ℕ) → get_or (pre ++ x ∷ rest) (length pre) d ≡ x
get_or-here [] rest x d = refl
get_or-here (p ∷ pre) rest x d = get_or-here pre rest x d

get_or-next :
    (pre rest : List ℕ) (x y d : ℕ) → get_or (pre ++ x ∷ y ∷ rest) (suc (length pre)) d ≡ y
get_or-next [] rest x y d = refl
get_or-next (p ∷ pre) rest x y d = get_or-next pre rest x y d

-- What the two DWORDs at an index say.
abbrev address_of : ℕ → ℕ → ℕ
address_of bar high =
    if bar % 2 == 1
    then bar / 4 * 4
    else if bar / 2 % 4 == 0
    then bar / 16 * 16
    else if bar / 2 % 4 == 2
    then bar / 16 * 16 + high * 2 ^ 32
    else 0

read_bar :
    (bars : List ℕ) (idx bar : ℕ)
    → get_or bars idx 0 ≡ bar
    → pcie_cfg_get_base_address bars idx ≡ address_of bar (get_or bars (suc idx) 0)
unfolding pcie_cfg_get_base_address
read_bar bars idx bar e = rw e refl

read_bars :
    (bars : List ℕ) (idx bar high : ℕ)
    → get_or bars idx 0 ≡ bar
    → get_or bars (suc idx) 0 ≡ high
    → pcie_cfg_get_base_address bars idx ≡ address_of bar high
read_bars bars idx bar high e h = read_bar bars idx bar e ∙ ap (address_of bar) h

address_of-ports : (addr h : ℕ) → addr % 4 ≡ 0 → address_of (addr + 1) h ≡ addr
address_of-ports addr h m = ground arith

address_of-memory32 :
    (addr h : ℕ) (ahead : Bool) → addr % 16 ≡ 0 → address_of (addr + ahead_bit ahead) h ≡ addr
address_of-memory32 addr h true m = ground arith
address_of-memory32 addr h false m = ground arith

address_of-memory64 :
    (addr : ℕ) (ahead : Bool)
    → addr % 16 ≡ 0
    → address_of (addr % 2 ^ 32 + 4 + ahead_bit ahead) (addr / 2 ^ 32) ≡ addr
address_of-memory64 addr true m = ground arith
address_of-memory64 addr false m = ground arith

-- One register among others.
read_one :
    (pre rest : List ℕ) (bar addr : ℕ)
    → ((h : ℕ) → address_of bar h ≡ addr)
    → pcie_cfg_get_base_address (pre ++ bar ∷ rest) (length pre) ≡ addr
read_one pre rest bar addr f =
    read_bar (pre ++ bar ∷ rest) (length pre) bar (get_or-here pre rest bar 0)
    ∙ f (get_or (pre ++ bar ∷ rest) (suc (length pre)) 0)

-- Two registers among others.
read_two :
    (pre rest : List ℕ) (bar high addr : ℕ)
    → address_of bar high ≡ addr
    → pcie_cfg_get_base_address (pre ++ bar ∷ high ∷ rest) (length pre) ≡ addr
read_two pre rest bar high addr f =
    read_bars (pre ++ bar ∷ high ∷ rest) (length pre) bar high (get_or-here pre (high ∷ rest) bar 0)
      (get_or-next pre rest bar high 0)
    ∙ f

-- The registers of ports or memory whose address is aligned and as wide as they say, with any
-- registers in front and behind, are read back to that address.
pub pcie_cfg_get_base_address-encode :
    (pre rest : List ℕ) (b : Bar)
    → IsBar b
    → pcie_cfg_get_base_address (pre ++ (encode b ++ rest)) (length pre) ≡ address b
pcie_cfg_get_base_address-encode pre rest (ports addr) (m, l) =
    read_one pre rest (addr + 1) addr (λ h. address_of-ports addr h m)
pcie_cfg_get_base_address-encode pre rest (memory32 addr ahead) (m, l) =
    read_one pre rest (addr + ahead_bit ahead) addr (λ h. address_of-memory32 addr h ahead m)
pcie_cfg_get_base_address-encode pre rest (memory64 addr ahead) (m, l) =
    read_two pre rest (addr % 2 ^ 32 + 4 + ahead_bit ahead) (addr / 2 ^ 32) addr
      (address_of-memory64 addr ahead m)
