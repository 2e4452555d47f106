-- ===== src/Tests/Flash.antt =====
-- The theorems on the fail-closed read and on snapshots, at a mock flash.
use mathlib.Core.Path.{◌≡◌, refl}
use picosignet.Prelude.{[], ◌∷◌, none, some, ok, true, length}
use picosignet.Prelude.Bytes.{Bytes, beq_bytes, of_be16, of_be32}
use picosignet.Hal.{Region, time_a, key_a, sector_len}
use picosignet.Hal.Snapshot.{snapshot, restore, IsImage, restore-snapshot}
use picosignet.Hal.Nor.{erased_sector, and_at, and_page}
use picosignet.Hal.Mock
use picosignet.Hal.Mock.{MockFlash, mock_flash, mock_nor}
use picosignet.Storage.Record.{
  parse_record, read_record, write_record, program_pages, header, record_bytes, record_sector,
}
use picosignet.Storage.AbPair.{
  time_floor, read_latest, read_latest_fail_closed, read_record_state, record_state, latest_state,
  all_ones, write, target, next_seq,
}
use picosignet.Storage.FailClosed.{IsOnes, read_latest-fail_closed, read_latest_fail_closed-IsOnes}
use picosignet.Tests.Devices.{no_crc}

abbrev floor_bytes : Bytes
floor_bytes = 0 ∷ 0 ∷ 0 ∷ 0 ∷ 104 ∷ 1 ∷ 2 ∷ 3 ∷ []

abbrev stamped : MockFlash
stamped = (write time_floor floor_bytes Mock.new).1

stamped_state : read_latest_fail_closed time_floor stamped ≡ (ok (some floor_bytes), stamped)
unfolding read_latest_fail_closed read_record_state record_state latest_state all_ones write
    read_record write_record target next_seq parse_record program_pages header record_bytes
    record_sector Mock.region Mock.new Mock.erase Mock.program Mock.read Mock.put_region Mock.faulty
    erased_sector and_at and_page of_be32 of_be16 beq_bytes
stamped_state = refl

read_latest-fail_closed_example : read_latest time_floor stamped ≡ (ok (some floor_bytes), stamped)
read_latest-fail_closed_example =
    read_latest-fail_closed time_floor stamped stamped (some floor_bytes) stamped_state

new_state : read_latest_fail_closed time_floor Mock.new ≡ (ok none, Mock.new)
unfolding read_latest_fail_closed read_record_state record_state latest_state all_ones Mock.region
    Mock.new Mock.read Mock.faulty erased_sector
new_state = refl

read_latest_fail_closed-IsOnes_example :
    (a : Bytes) × (b : Bytes) × (t : MockFlash) × (mock_flash.read time_floor.a Mock.new
      ≡ (ok a, t))
    × (mock_flash.read time_floor.b t ≡ (ok b, Mock.new))
    × IsOnes a
    × IsOnes b
read_latest_fail_closed-IsOnes_example =
    read_latest_fail_closed-IsOnes time_floor Mock.new Mock.new new_state

new_sectors : (r : Region) → length (Mock.region Mock.new r) ≡ sector_len
unfolding Mock.new Mock.region erased_sector
new_sectors time_a = refl
new_sectors _ = refl

pub new-IsImage : IsImage Mock.new
unfolding Mock.new
new-IsImage = record { sector = new_sectors; id_len = refl }

-- A flash whose reads of one region fail.
abbrev broken : MockFlash
broken = record Mock.new { read_fault = some key_a }

restore-snapshot_example :
    restore (snapshot Mock.new) broken ≡ (true, record Mock.new { read_fault = some key_a })
unfolding Mock.new
restore-snapshot_example = restore-snapshot Mock.new new-IsImage broken
