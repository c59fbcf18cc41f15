-- ===== src/Cursor/Tests.antt =====
-- A cursor of 20 digits.
use awiki_open_server.Shared.{◌≡◌, true, arith, ok}
use awiki_open_server.Shared.Json.{str}
use awiki_open_server.Shared.Decimal.{show}
use awiki_open_server.Cursor.{decimal_cursor}
use awiki_open_server.Cursor.RoundTrip.{decimal_cursor-show}

decimal_cursor-show_example :
    decimal_cursor (str (show 18_446_744_073_709_551_615)) "scan_seq" true
    ≡ ok 18_446_744_073_709_551_615
decimal_cursor-show_example =
    decimal_cursor-show 18_446_744_073_709_551_615 "scan_seq" true (omega arith)
