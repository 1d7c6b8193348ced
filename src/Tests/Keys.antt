-- ===== src/Tests/Keys.antt =====
-- The properties of the bytes of numbers at two numbers.
use storm_rev.Base.{◌≡◌, negsuc, Ordering, some, arith}
use storm_rev.Base.Bytes.{compare_bytes}
use storm_rev.Base.{pos}
use storm_rev.Key.{number_to_bytes, number_from_bytes}
use storm_rev.Key.Order.{number_from_bytes-number_to_bytes, number_to_bytes_order}

number_from_bytes-number_to_bytes_example :
    number_from_bytes (number_to_bytes (negsuc 299)) ≡ some (negsuc 299)
number_from_bytes-number_to_bytes_example =
    number_from_bytes-number_to_bytes (negsuc 299) (omega arith)

number_to_bytes_order_example :
    compare_bytes (number_to_bytes (pos 300)) (number_to_bytes (pos 1000)) ≡ Ordering.lt
number_to_bytes_order_example = number_to_bytes_order 300 1000 (omega arith) (omega arith)
