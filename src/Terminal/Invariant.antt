-- ===== src/Terminal/Invariant.antt =====
-- The line editor stays inside its buffer and keeps it terminated.
use chat_app_in_c.Common.{
  ℕ, zero, suc, ◌+◌, ◌-◌, ◌<◌, ◌≤◌, ◌≡◌, refl, ap, ◌∙◌, Bool, true, false, ◌||◌, Option, none, some,
  ◌≢◌, inl, inr, List, [], ◌∷◌, ltb, ◌==◌, if◌then◌else◌, Bool-cases, get_or, set, get_or-set_self,
  get_or-set_ne, length-set, arith,
}
use chat_app_in_c.Common
use chat_app_in_c.CString.{Bytes}
use chat_app_in_c.Terminal.{
  ti_maxline, InputHandler, ti_input_init, ti_process_backspace, store_char, ti_process_char,
  enter_pressed, key_pressed,
}

-- The buffer has its size, the line and its terminating zero lie inside it, the zero is there, and the
-- escape filter is in one of its three states.
pub record IsValid (ih : InputHandler) : Type 0 where
  pub size : Common.length ih.buffer ≡ ti_maxline
  pub fits : ih.length < ti_maxline
  pub terminated : get_or ih.buffer ih.length 0 ≡ 0
  pub state_in : ih.esc_state ≤ 2

pub init-IsValid :
    (ih : InputHandler) (prompt : Bytes)
    → Common.length ih.buffer ≡ ti_maxline
    → IsValid (ti_input_init ih prompt)
unfolding ti_input_init
init-IsValid ih prompt h = record {
  size = length-set ih.buffer 0 0 ∙ h;
  fits = omega arith;
  terminated = get_or-set_self ih.buffer 0 0 0 (omega arith);
  state_in = omega arith;
}

pub backspace-IsValid : {ih : InputHandler} → IsValid ih → IsValid (ti_process_backspace ih).1
unfolding ti_process_backspace
backspace-IsValid {ih} v =
    ground
      (arith, length-set ih.buffer (ih.length - 1) 0, get_or-set_self ih.buffer (ih.length - 1) 0 0)

pub store_char-IsValid : {ih : InputHandler} (c : ℕ) → IsValid ih → IsValid (store_char ih c).1
unfolding store_char
store_char-IsValid {ih} c v =
    let line = set ih.buffer ih.length c in
    ground (
      arith,
      length-set ih.buffer ih.length c,
      length-set line (ih.length + 1) 0,
      get_or-set_self line (ih.length + 1) 0 0,
    )

pub process_char-IsValid :
    {ih : InputHandler} (c : ℕ) → IsValid ih → IsValid (ti_process_char ih c).1
unfolding ti_process_char
process_char-IsValid {ih} c v = ground (arith, store_char-IsValid c v)

pub enter-IsValid : {ih : InputHandler} → IsValid ih → IsValid (enter_pressed ih).handler
unfolding enter_pressed
enter-IsValid {ih} v =
    let line = set ih.buffer ih.length 0 in
    ground
      (arith, length-set ih.buffer ih.length 0, length-set line 0 0, get_or-set_self line 0 0 0)

-- Whatever key is pressed, a valid handler stays valid: the line and its terminating zero stay inside
-- the buffer.
pub key_pressed-IsValid :
    {ih : InputHandler} (c : ℕ) → IsValid ih → IsValid (key_pressed ih c).handler
unfolding key_pressed
key_pressed-IsValid {ih} c v =
    ground (arith, enter-IsValid v, backspace-IsValid v, process_char-IsValid c v)
