-- ===== src/CString/Tests.antt =====
-- Runs of the string functions.
use chat_app_in_c.Common.{◌≡◌, refl, some}
use chat_app_in_c.CString.{
  codes, strtok, strtoul, decimal, decimal_digits, is_blank_crnl, ulong_max,
}

strtok_command :
    strtok is_blank_crnl (codes "  /join  room") ≡ (some (codes "/join"), codes " room")
unfolding strtok
strtok_command = refl

strtoul_negative : strtoul (codes " -1x") ≡ ulong_max
unfolding strtoul
strtoul_negative = refl

strtoul_large : strtoul (codes "18446744073709551616") ≡ ulong_max
unfolding strtoul
strtoul_large = refl

decimal_largest : decimal ulong_max ≡ codes "18446744073709551615"
unfolding decimal decimal_digits
decimal_largest = refl
