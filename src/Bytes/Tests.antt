-- ===== src/Bytes/Tests.antt =====
-- Sizes of concrete numbers of bytes.
use netfleet.Common.{◌*◌, ◌^◌, ◌≡◌, refl, some, none, codes, leb}
use netfleet.Json.{print}
use netfleet.Bytes.{scale, round, to_fixed, decimal_units, format_bytes, format_binary}
use netfleet.Bytes.Reading.{Reads, format_bytes-Reads}

texts :
    (format_bytes (some 1536) ≡ codes "1.5 KB")
    × (format_bytes (some 0) ≡ codes "0.0 B")
    × (format_bytes (some 1048575) ≡ codes "1024 KB")
    × (format_binary (some 1048576) ≡ codes "1.0 MiB")
    × (format_binary (some 7) ≡ codes "7 B")
    × (format_binary none ≡ codes "—")
unfolding format_bytes format_binary to_fixed round scale print
texts = (refl, refl, refl, refl, refl, refl)

format_bytes-Reads_example :
    (r : Reads decimal_units 4 1536 (format_bytes (some 1536))) × (r.whole
      ≡ leb (100 * 1024 ^ r.index) 1536)
format_bytes-Reads_example = format_bytes-Reads 1536
