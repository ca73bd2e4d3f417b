-- ===== src/Tests/Files.antt =====
-- Runs of internal/config/envfile.go.
use nexus_relay.Common.{
  ◌≡◌, refl, String, some, [], ◌∷◌, ok, fail_if, or_fail, lookup, insert, arith,
}
use nexus_relay.Common.Text.{cut, split, trim_suffix, is_control}
use nexus_relay.Config.Library.{utf8}
use nexus_relay.Config.EnvironmentFile.{
  parse_environment_file, scan_lines, read_lines, read_line, read_entry, is_environment_name,
}
use nexus_relay.Config.EnvironmentFile.Accepted.{
  entries_of, lines_of, IsInventory, parse_environment_file-IsInventory,
}
use nexus_relay.Config.EnvironmentFile.RoundTrip.{render, parse_environment_file-render}
use nexus_relay.Config.Inventory.{is_known, inventory}
use nexus_relay.Config.Setting.{Values}

abbrev written : Values
written = ("HTTP_PORT", "9000") ∷ ("LOG_LEVEL", "debug") ∷ []

written-IsInventory : IsInventory written
unfolding is_environment_name is_control lookup is_known inventory
written-IsInventory = record {
  entries = ((refl, refl, refl), ((refl, refl, refl), tt));
  distinct = (refl, (refl, tt));
}

parse_environment_file-render_example :
    parse_environment_file (some (utf8 (render written))) ≡ ok written
parse_environment_file-render_example =
    parse_environment_file-render written written-IsInventory (omega arith, (omega arith, tt))
      (omega arith)

abbrev commented : String
commented = "# a comment\r\n\nHTTP_PORT=9000\nLOG_FORMAT=a=b\n"

commented_read :
    parse_environment_file (some (utf8 commented))
    ≡ ok (("HTTP_PORT", "9000") ∷ ("LOG_FORMAT", "a=b") ∷ [])
unfolding parse_environment_file scan_lines read_lines read_line read_entry is_environment_name
    fail_if or_fail lookup insert cut split trim_suffix is_control is_known inventory
commented_read = refl

commented_settings :
    IsInventory (("HTTP_PORT", "9000") ∷ ("LOG_FORMAT", "a=b") ∷ [])
    × (("HTTP_PORT", "9000") ∷ ("LOG_FORMAT", "a=b") ∷ []
        ≡ entries_of (lines_of (some (utf8 commented))))
commented_settings = parse_environment_file-IsInventory (some (utf8 commented)) commented_read
