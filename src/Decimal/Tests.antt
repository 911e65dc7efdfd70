-- ===== src/Decimal/Tests.antt =====
-- Numbers in decimal and back, at the ends of the range.
use tcabci_read_go_client.Prelude.{negsuc, ◌≡◌, refl, some, arith, codes}
use tcabci_read_go_client.Decimal.{itoa, format_int}
use tcabci_read_go_client.Decimal.Reading.{parse_int, parse_int-format_int}

itoa_zero : itoa 0 ≡ codes "0"
unfolding itoa
itoa_zero = refl

format_negative : format_int (negsuc 1699) ≡ codes "-1700"
unfolding format_int itoa
format_negative = refl

read_back : parse_int (format_int (negsuc 1699)) ≡ some (negsuc 1699)
read_back = parse_int-format_int (negsuc 1699) (omega arith)
