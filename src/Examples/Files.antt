-- ===== src/Examples/Files.antt =====
-- Reading and seeking in a file of 4096 bytes.
use vmdk_rs.Base.{ℕ, ◌+◌, ◌%◌, ◌≤◌, ◌≡◌, refl, if◌then◌else◌, leb, tabulate, arith}
use vmdk_rs.Base.Outcome.{ok, err}
use vmdk_rs.Io.{Cache, CacheReadSeek, negsuc, from_end, unexpected_eof, seek, read_exact}
use vmdk_rs.Io.Exact.{Serves, read_exact_lem, seek_lem}
use vmdk_rs.Examples.Disk.{disk, disk-Serves}

abbrev counter : ℕ → ℕ
counter x = x % 251

abbrev file : Cache
file = disk counter 4096

abbrev at_10 : CacheReadSeek
at_10 = record { idx = 3; pos = 10 }

abbrev near_end : CacheReadSeek
near_end = record { idx = 3; pos = 4086 }

file-Serves : Serves file 3 counter 4096
file-Serves = disk-Serves counter 4096 3 (omega arith)

read_exact_lem_example : read_exact file 20 at_10 ≡ (
    if leb (10 + 20) 4096
    then ok (tabulate counter 10 20, record { idx = 3; pos = 30 })
    else err unexpected_eof)
read_exact_lem_example =
    read_exact_lem file 3 counter 4096 file-Serves 10 20 (omega arith) (omega arith)

seek_back : seek file (from_end (negsuc 9)) at_10 ≡ ok near_end
unfolding seek
seek_back = refl

seek_lem_example : (near_end.idx ≡ 3) × (near_end.pos ≤ 4096) × (near_end.pos + 10 ≡ 4096)
seek_lem_example =
    seek_lem file 3 counter 4096 file-Serves 10 (from_end (negsuc 9)) near_end seek_back
