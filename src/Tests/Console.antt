-- ===== src/Tests/Console.antt =====
-- A cursor there and back.
use gateway_platform.Control.Console.Base64.{decode64, all_values, value_of}
use gateway_platform.Control.Console.Cursor.{
  parse_cursor, encode_cursor, cursor, parse_cursor-encode_cursor, bad_cursor,
}
use gateway_platform.Base.{◌≡◌, arith, refl}
use gateway_platform.Base.Int.{negsuc}
use gateway_platform.Base.Text.{codes, trim_space, trim_left, is_space}

parse_cursor-encode_cursor_example :
    parse_cursor (encode_cursor (codes "2026-05") (negsuc 41))
    ≡ cursor (record { sort = codes "2026-05"; id = negsuc 41 })
parse_cursor-encode_cursor_example =
    parse_cursor-encode_cursor (codes "2026-05") (negsuc 41) (omega arith) (omega arith)
      (omega arith)

padding_is_refused : parse_cursor (codes "QQ==") ≡ bad_cursor
unfolding parse_cursor trim_space trim_left is_space decode64 all_values value_of
padding_is_refused = refl
