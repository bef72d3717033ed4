-- ===== src/Crc/Tests.antt =====
-- Runs of the checksum of src/common/Hash.cc, and the theorems about it at concrete inputs.
use rem_svc.Base.{◌≡◌, refl, codes, IsBytes, arith}
use rem_svc.Crc.{crc32, crc32_hex}
use rem_svc.Crc.Table.{serial_crc32, crc32-serial_crc32}
use rem_svc.Crc.Detect.{crc32_hex-window}

-- The check value of CRC-32/ISO-HDLC.
check_value : crc32_hex (codes "123456789") ≡ codes "cbf43926"
unfolding crc32_hex
check_value = refl

empty_text : crc32_hex (codes "") ≡ codes "00000000"
unfolding crc32_hex
empty_text = refl

ls-IsBytes : IsBytes (codes "ls")
ls-IsBytes = (omega arith, (omega arith, tt))

crc32-serial_crc32_example : crc32 (codes "ls") ≡ serial_crc32 (codes "ls")
crc32-serial_crc32_example = crc32-serial_crc32 (codes "ls") ls-IsBytes

crc32_hex-window_example : codes "ls" ≡ codes "ls"
crc32_hex-window_example =
    crc32_hex-window (codes "ls") (codes "ls") (codes "ls") (codes "ls") ls-IsBytes ls-IsBytes
      ls-IsBytes ls-IsBytes refl (omega arith) refl
