-- ===== src/Terminal/Raw.antt =====
-- `ti_enable_raw_mode` and `ti_disable_raw_mode` of client/src/termios_input.c.
use chat_app_in_c.Common.{ℕ, ◌≡◌, refl, Bool, true, false, if◌then◌else◌}

-- `struct termios`: the flags ICANON and ECHO, and everything else as one number
pub record Termios : Type 0 where
  pub icanon : Bool
  pub echo : Bool
  pub other : ℕ

-- The attributes of the terminal, and `ti_orig_termios`
pub record Modes : Type 0 where
  pub terminal : Termios
  pub orig_termios : Termios

-- `tcsetattr`, which the flag says to succeed or to fail
abbrev pub set_terminal : Bool → Termios → Modes → Modes
set_terminal ok t m = if ok then record m { terminal = t } else m

-- `ti_enable_raw_mode`; the flags say whether `tcgetattr` and `tcsetattr` succeed.
unfoldable pub ti_enable_raw_mode : Bool → Bool → Modes → Modes
ti_enable_raw_mode false set_ok m = m
ti_enable_raw_mode true set_ok m =
    let saved : Modes = record m { orig_termios = m.terminal } in
    set_terminal set_ok (record m.terminal { icanon = false; echo = false }) saved

-- `ti_disable_raw_mode`
unfoldable pub ti_disable_raw_mode : Bool → Modes → Modes
ti_disable_raw_mode ok m = set_terminal ok m.orig_termios m

-- Leaving raw mode gives the terminal its old attributes back, if they could be read when raw mode was
-- entered and can be set now.
disable-enable :
    (set_ok : Bool) (m : Modes)
    → (ti_disable_raw_mode true (ti_enable_raw_mode true set_ok m)).terminal ≡ m.terminal
unfolding ti_disable_raw_mode ti_enable_raw_mode
disable-enable true m = refl
disable-enable false m = refl
