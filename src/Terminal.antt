-- ===== src/Terminal.antt =====
-- client/src/termios_input.c and client/include/termios_input.h: the line editor of the client, and
-- the loop of `main` in client/src/chatclient.c that feeds it. A function returns the bytes that it
-- writes to standard output beside the new state. The mutex only orders the drawing.
pub mod Invariant
pub mod Editing
pub mod Raw
mod Tests
use chat_app_in_c.Common.{
  ℕ, zero, suc, ◌+◌, ◌-◌, Bool, true, false, ◌||◌, not, Option, none, some, List, [], ◌∷◌, ◌++◌,
  ltb, ◌==◌, if◌then◌else◌, set, take, length,
}
use chat_app_in_c.CString.{Bytes, codes, c_string}

-- `TI_MAXLINE`
abbrev pub ti_maxline : ℕ
ti_maxline = 1024

-- `TI_InputHandler`, less its mutex; the buffer holds `TI_MAXLINE` bytes.
pub record InputHandler : Type 0 where
  pub buffer : Bytes
  pub length : ℕ
  pub prompt : Bytes
  pub esc_state : ℕ

-- `SERVER_MESSAGE`, `INPUT_MESSAGE`, `EXIT_MESSAGE`
pub data MessageType : Type 0 where
  server_message input_message exit_message : MessageType

abbrev pub esc_byte : ℕ
esc_byte = 0x1B

-- `ti_input_init`; the handler's old contents are what the memory held.
unfoldable pub ti_input_init : InputHandler → Bytes → InputHandler
ti_input_init ih prompt = record {
  buffer = set ih.buffer 0 0;
  length = 0;
  prompt = prompt;
  esc_state = 0;
}

unfoldable pub ti_draw_prompt : InputHandler → Bytes
ti_draw_prompt ih = ih.prompt

unfoldable pub ti_draw_buffer : InputHandler → Bytes
ti_draw_buffer ih = take ih.length ih.buffer

abbrev pub ti_draw_newline : Bytes
ti_draw_newline = 10 ∷ []

unfoldable pub ti_process_backspace : InputHandler → Bytes × InputHandler
ti_process_backspace ih =
    if ltb 0 ih.length
    then (
      8 ∷ 32 ∷ 8 ∷ [],
      record ih { length = ih.length - 1; buffer = set ih.buffer (ih.length - 1) 0 },
    )
    else ([], ih)

-- The end of `ti_process_char`: the byte is stored and echoed if there is room.
unfoldable pub store_char : InputHandler → ℕ → Bytes × InputHandler
store_char ih c =
    if ltb (ih.length + 1) ti_maxline
    then (
      c ∷ [],
      record ih {
        buffer = set (set ih.buffer ih.length c) (ih.length + 1) 0;
        length = ih.length + 1;
      },
    )
    else ([], ih)

unfoldable pub ti_process_char : InputHandler → ℕ → Bytes × InputHandler
ti_process_char ih c =
    if ih.esc_state == 0
    then (if c == esc_byte then ([], record ih { esc_state = 1 }) else store_char ih c)
    else if ih.esc_state == 1
    then ([], record ih { esc_state = if c == b'[' then 2 else 0 })
    else if ih.esc_state == 2
    then ([], record ih { esc_state = 0 })
    else store_char ih c

-- `COLOR_RESET`
abbrev pub color_reset : Bytes
color_reset = esc_byte ∷ codes "[0m"

abbrev newline_before : MessageType → Bytes
newline_before input_message = ti_draw_newline
newline_before _ = []

abbrev prompt_after : MessageType → InputHandler → Bytes
prompt_after exit_message ih = []
prompt_after _ ih = ih.prompt

abbrev buffer_after : MessageType → InputHandler → Bytes
buffer_after server_message ih = take ih.length ih.buffer
buffer_after _ ih = []

-- `ti_draw_message`; each colour is written with its terminating zero, as the code has it.
unfoldable pub ti_draw_message : InputHandler → Bytes → MessageType → Bytes → Bytes
ti_draw_message ih msg kind color =
    newline_before kind
    ++ (13 ∷ esc_byte ∷ codes "[K")
    ++ (color ++ 0 ∷ [])
    ++ msg
    ++ (color_reset ++ 0 ∷ [])
    ++ prompt_after kind ih
    ++ buffer_after kind ih

-- What the loop of `main` does with a key: the line for `process_command`, if there is one, the bytes
-- written by the loop itself, and the handler with its line reset.
pub record Pressed : Type 0 where
  pub command : Option Bytes
  pub output : Bytes
  pub handler : InputHandler

-- `ih.buffer[ih.length] = '\0'`, the test for an empty line, and the reset
unfoldable pub enter_pressed : InputHandler → Pressed
enter_pressed ih =
    let line = set ih.buffer ih.length 0 in
    let reset : InputHandler = record ih { buffer = set line 0 0; length = 0 } in
    if ih.length == 0
    then record { command = none; output = ti_draw_newline ++ ih.prompt; handler = reset }
    else record { command = some (c_string line); output = []; handler = reset }

-- One round of the loop of `main`
unfoldable pub key_pressed : InputHandler → ℕ → Pressed
key_pressed ih c =
    if (c == 13) || (c == 10)
    then enter_pressed ih
    else if (c == 127) || (c == 8)
    then (let (out, ih') = ti_process_backspace ih in
        record { command = none; output = out; handler = ih' })
    else (let (out, ih') = ti_process_char ih c in
        record { command = none; output = out; handler = ih' })
