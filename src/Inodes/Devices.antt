-- ===== src/Inodes/Devices.antt =====
-- Device numbers of src/inode2filename/inode.h.
use android_system_iorap.Prelude.{ℕ, ◌≡◌, ◌<◌, ◌^◌, arith}
use android_system_iorap.Inodes.{makedev, major, minor, from_device_and_inode, get_device}

-- A device number of 64 bits is that of the inode made from it, and its parts are unsigned ints.
pub get_device-from_device_and_inode :
    (dev inode : ℕ)
    → dev < 2 ^ 64
    → (get_device (from_device_and_inode dev inode) ≡ dev)
      × (major dev < 2 ^ 32)
      × (minor dev < 2 ^ 32)
unfolding makedev major minor
get_device-from_device_and_inode dev inode h = (omega arith, omega arith, omega arith)
