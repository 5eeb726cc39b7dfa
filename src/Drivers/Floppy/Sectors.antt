-- ===== src/Drivers/Floppy/Sectors.antt =====
-- The place of a sector on the disk.
use sea_star_os.Base.{ℕ, ◌+◌, ◌-◌, ◌*◌, ◌≤◌, ◌<◌, ◌≡◌, arith}
use sea_star_os.Drivers.Floppy.{floppydisk_lba2chs}

-- The head, track and sector of a sector number give the number back, with head 0 or 1, a sector
-- from 1 to 18, and a track below `tracks` on a disk of that many tracks on each side.
pub floppydisk_lba2chs_lem :
    (lba tracks : ℕ)
    → lba < tracks * 36
    → let (head, track, sector) = floppydisk_lba2chs lba in
      ((track * 2 + head) * 18 + (sector - 1) ≡ lba)
      × (head < 2)
      × (0 < sector)
      × (sector ≤ 18)
      × (track < tracks)
unfolding floppydisk_lba2chs
floppydisk_lba2chs_lem lba tracks h =
    (omega arith, omega arith, omega arith, omega arith, omega arith)
