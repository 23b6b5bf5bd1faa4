-- ===== src/Server/Names.antt =====
-- `is_valid_username` and `is_valid_roomname` of server/src/chatserver.c.
use chat_app_in_c.Common.{
  ℕ, zero, suc, ◌-◌, ◌≤◌, ◌≡◌, ◌↔◌, refl, Bool, true, false, ◌&&◌, ◌||◌, [], ◌∷◌, ltb, ◌==◌,
  if◌then◌else◌, length, arith,
}
use chat_app_in_c.CString.{Bytes, strnlen, isalnum}
use chat_app_in_c.CString.Token.{AllBytes}
use chat_app_in_c.Server.{username_len, room_name_len}

-- The loop over the first `len` bytes
unfoldable pub all_alnum : ℕ → Bytes → Bool
all_alnum zero s = true
all_alnum (suc len) [] = true
all_alnum (suc len) (c ∷ s) = isalnum c && all_alnum len s

unfoldable pub is_valid_username : Bytes → Bool
is_valid_username s =
    let len = strnlen s username_len in
    if (len == 0) || ltb (username_len - 1) len then false else all_alnum len s

unfoldable pub is_valid_roomname : Bytes → Bool
is_valid_roomname s =
    let len = strnlen s room_name_len in
    if (len == 0) || ltb (room_name_len - 1) len then false else all_alnum len s

all_alnum_iff : (n : ℕ) (s : Bytes) → length s ≤ n → (all_alnum n s ≡ true) ↔ AllBytes isalnum s
unfolding all_alnum
all_alnum_iff zero [] h = (λ _. tt, λ _. refl)
all_alnum_iff zero (c ∷ s) h = absurd (omega arith)
all_alnum_iff (suc n) [] h = (λ _. tt, λ _. refl)
all_alnum_iff (suc n) (c ∷ s) h = ground (arith, all_alnum_iff n s (omega arith))

-- A user name is accepted exactly if it has 1 to 15 bytes, all of them letters or digits.
pub is_valid_username_iff :
    (s : Bytes)
    → (is_valid_username s ≡ true) ↔ ((1 ≤ length s) × (length s ≤ 15) × AllBytes isalnum s)
unfolding is_valid_username
is_valid_username_iff s = ground (arith, all_alnum_iff (length s) s)

-- A room name is accepted exactly if it has 1 to 31 bytes, all of them letters or digits.
pub is_valid_roomname_iff :
    (s : Bytes)
    → (is_valid_roomname s ≡ true) ↔ ((1 ≤ length s) × (length s ≤ 31) × AllBytes isalnum s)
unfolding is_valid_roomname
is_valid_roomname_iff s = ground (arith, all_alnum_iff (length s) s)
