-- ===== src/Floppy/Disk/Address.antt =====
-- Block addresses as heads, cylinders and sectors, and the transfers that are accepted.
use sunflower.Common.{
  leb, ◌==◌, if◌then◌else◌, ℕ, ◌+◌, ◌-◌, ◌*◌, ◌/◌, ◌≤◌, ◌<◌, ◌≡◌, ◌⊎◌, inl, inr, arith,
}
use sunflower.Floppy.Machine.{heads, cylinders, sectors, DiskError, bad_sect_or_head, end_of_drive}
use sunflower.Floppy.Disk.{Chs, lba_to_chs, check_transfer}

-- The block at a head, cylinder and sector.
abbrev pub block_at : Chs → ℕ
block_at c = (c.cyl * heads + c.head) * sectors + (c.sect - 1)

-- The address of a block below 9216 (256 cylinders) is a place on a disk, and that place is the
-- block's: the head is 0 or 1 and the sector runs from 1 to 18.
pub lba_to_chs-block_at :
    (lba : ℕ)
    → lba < 9216
    → (block_at (lba_to_chs lba) ≡ lba)
      × ((lba_to_chs lba).head < heads)
      × (0 < (lba_to_chs lba).sect)
      × ((lba_to_chs lba).sect ≤ sectors)
unfolding lba_to_chs
lba_to_chs-block_at lba h = (omega arith, omega arith, omega arith, omega arith)

abbrev track : ℕ → ℕ
track block = block / sectors

-- What is expected of a transfer of `sects` sectors from block `ptr`.
abbrev pub transfer_spec : ℕ → ℕ → DiskError ⊎ (Chs × ℕ)
transfer_spec ptr sects =
    let last = ptr + sects - 1 in
    if leb (cylinders * heads * sectors) last
    then inl end_of_drive
    else if ptr / sectors == last / sectors
    then inr (lba_to_chs ptr, (lba_to_chs last).sect)
    else inl (bad_sect_or_head (lba_to_chs ptr).sect (lba_to_chs ptr).head)

-- For at least one sector and a last block below 9216: a transfer past the 2880 blocks of the drive
-- is refused as such, one that lies on one track (the 18 sectors under one head) is accepted with
-- the address of its first block and the sector of its last, and any other is refused for its
-- sector and head.
pub check_transfer_lem :
    (ptr sects : ℕ)
    → 0 < sects
    → ptr + sects ≤ 9216
    → check_transfer ptr sects ≡ transfer_spec ptr sects
unfolding check_transfer lba_to_chs
check_transfer_lem ptr sects lo hi = ground arith

-- Cylinders are cut to eight bits: 256 cylinders further on, a block that is far past the end of the
-- drive is taken for one on it.
pub check_transfer-wraps :
    (ptr : ℕ)
    → ptr < cylinders * heads * sectors
    → check_transfer (ptr + 9216) 1 ≡ inr (lba_to_chs ptr, (lba_to_chs ptr).sect)
unfolding check_transfer lba_to_chs
check_transfer-wraps ptr h = ground arith
