-- ===== src/Tests/LogTests.antt =====
-- Integers in a log line.
use dbdky_gcc.Common.{◌≤◌, ◌<◌, ◌≡◌, ◌++◌, ◌⊎◌, [], ◌∷◌, length, arith}
use dbdky_gcc.Common.Int.{negsuc, print_int}
use dbdky_gcc.LogStream.{FixedBuffer, convert, format_integer, avail}
use dbdky_gcc.LogStream.Integers.{convert-print_int, format_integer-fits}

-- "n=".
abbrev line : FixedBuffer
line = record { text = 110 ∷ 61 ∷ [] }

convert-print_int_example : convert (negsuc 41) ≡ print_int (negsuc 41)
convert-print_int_example = convert-print_int (negsuc 41)

format_integer-fits_example :
    (length (format_integer (negsuc 41) line).text ≤ 4000)
    × (((avail line < 32) × (format_integer (negsuc 41) line ≡ line))
        ⊎ ((32 ≤ avail line)
            × ((format_integer (negsuc 41) line).text ≡ line.text ++ print_int (negsuc 41))))
format_integer-fits_example = format_integer-fits (negsuc 41) line (omega arith) (omega arith)
