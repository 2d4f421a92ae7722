-- ===== src/Inodes.antt =====
-- Inode of src/inode2filename/inode.h, and the device numbers that it is made of.
pub mod Devices
pub mod Parse
use android_system_iorap.Prelude.{
  ℕ, ◌+◌, ◌*◌, ◌/◌, ◌%◌, ◌^◌, ◌≡◌, ◌↔◌, ◌==◌, Bool, true, ◌&&◌, arith, Key,
}

pub record Inode : Type 0 where
  pub device_major : ℕ
  pub device_minor : ℕ
  pub inode : ℕ

-- `x & mask` for a mask of `width` ones at the bit `low`.
abbrev pub field : ℕ → ℕ → ℕ → ℕ
field x low width = x / 2 ^ low % 2 ^ width * 2 ^ low

-- The parts of the alternatives `|` have no bits in common.
unfoldable pub makedev : ℕ → ℕ → ℕ
makedev major minor =
    field major 12 20 * 2 ^ 32
    + field major 0 12 * 2 ^ 8
    + field minor 8 24 * 2 ^ 12
    + field minor 0 8

unfoldable pub major : ℕ → ℕ
major dev = field (dev / 2 ^ 32) 12 20 + field (dev / 2 ^ 8) 0 12

unfoldable pub minor : ℕ → ℕ
minor dev = field (dev / 2 ^ 12) 8 24 + field dev 0 8

-- Inode::FromDeviceAndInode
abbrev pub from_device_and_inode : ℕ → ℕ → Inode
from_device_and_inode dev inode = record {
  device_major = major dev;
  device_minor = minor dev;
  inode = inode;
}

-- Inode::GetDevice; the parameters of makedev are unsigned int.
abbrev pub get_device : Inode → ℕ
get_device i = makedev (i.device_major % 2 ^ 32) (i.device_minor % 2 ^ 32)

-- operator==
abbrev pub same_inode : Inode → Inode → Bool
same_inode i j =
    i.device_major == j.device_major && (i.device_minor == j.device_minor && i.inode == j.inode)

pub same_inode_iff : (i j : Inode) → (same_inode i j ≡ true) ↔ (i ≡ j)
same_inode_iff i j = ground arith

instance abbrev pub inode_key : Key Inode
inode_key = record { same = same_inode; same_iff = same_inode_iff }
