-- ===== src/Terminal/Tests.antt =====
-- Runs of the line editor, and its theorems at concrete states.
use chat_app_in_c.Common.{ℕ, ◌≡◌, refl, List, [], ◌∷◌, replicate, length-replicate, arith}
use chat_app_in_c.CString.{codes, c_string}
use chat_app_in_c.Terminal.{
  InputHandler, ti_process_backspace, ti_process_char, store_char, key_pressed, enter_pressed,
}
use chat_app_in_c.Terminal.Invariant.{IsValid}
use chat_app_in_c.Terminal.Editing.{line, session, spec_session, session_refines}

-- `/x` has been typed.
abbrev typed : InputHandler
typed = record {
  buffer = b'/' ∷ b'x' ∷ replicate 1022 0;
  length = 2;
  prompt = codes "> ";
  esc_state = 0;
}

typed-IsValid : IsValid typed
typed-IsValid = record {
  size = omega (arith, length-replicate {A = ℕ} 1022 0);
  fits = omega arith;
  terminated = refl;
  state_in = omega arith;
}

-- `u`, backspace, an arrow key, `y`, return
abbrev keys : List ℕ
keys = b'u' ∷ 127 ∷ 0x1B ∷ b'[' ∷ b'A' ∷ b'y' ∷ 10 ∷ []

session_run : session typed keys ≡ codes "/xy" ∷ []
unfolding session key_pressed enter_pressed ti_process_backspace ti_process_char store_char c_string
session_run = refl

session_refines_example : session typed keys ≡ spec_session (line typed) keys
session_refines_example = session_refines keys typed-IsValid
