-- ===== src/Client/Main.antt =====
-- `main` of client/src/chatclient.c behind the login: from raw mode to the end of its loop.
pub mod Typed
pub mod Session
use chat_app_in_c.Common.{
  ℕ, Bool, true, false, Option, none, some, List, [], ◌∷◌, ◌++◌, set, if◌then◌else◌,
}
use mathlib.Core.Option
use chat_app_in_c.CString.{Bytes, codes}
use chat_app_in_c.Terminal.{InputHandler, Pressed, ti_input_init, ti_draw_prompt, key_pressed}
use chat_app_in_c.Client.{Event, Client, tell, color_red}
use chat_app_in_c.Client.Commands.{FileSystem, process_command}

abbrev malloc_error : Bytes
malloc_error = codes "[ERROR] Malloc error"

-- `ih.buffer[ih.length] = '\0'`, in front of `process_command`
abbrev pub terminated : Client → Client
terminated c =
    let ih = c.handler in record c { handler = record ih { buffer = set ih.buffer ih.length 0 } }

-- What the loop does with the line that a key has ended, if it has
unfoldable pub submit_line : FileSystem → Client → Option Bytes → Option (List Event)
submit_line files c none = some []
submit_line files c (some line) = process_command files (terminated c) line

unfoldable pub loop_pressed : FileSystem → Client → Pressed → Option (List Event × Client)
unfolding submit_line
loop_pressed files c p =
    Option.map (λ events. (Event.shown p.output ∷ events, record c { handler = p.handler }))
      (submit_line files c p.command)

-- One round of the loop, with the byte that `read` gave; the bytes that the round itself draws are one
-- event. The result is `none` where C leaves it undefined.
unfoldable pub loop_round : FileSystem → Client → ℕ → Option (List Event × Client)
unfolding loop_pressed
loop_round files c key = loop_pressed files c (key_pressed c.handler key)

-- A round, and what follows it
abbrev pub and_then :
    Option (List Event × Client)
    → (Client → Option (List Event × Client))
    → Option (List Event × Client)
and_then none k = none
and_then (some (events, c)) k = Option.map (λ (more, c'). (events ++ more, c')) (k c)

-- The loop, over the bytes that `read` gives until it fails
unfoldable pub main_loop : FileSystem → Client → List ℕ → Option (List Event × Client)
main_loop files c [] = some ([], c)
main_loop files c (key ∷ keys) = and_then (loop_round files c key) (λ c'. main_loop files c' keys)

-- From `ti_input_init` on; without memory for the receiver's argument the client exits. The handler's
-- old contents are those of a global variable.
unfoldable pub run_client : FileSystem → Client → Bool → List ℕ → Option (List Event × Client)
run_client files c malloc_ok keys =
    let c' = record c { handler = ti_input_init c.handler (codes "> ") } in
    if malloc_ok
    then Option.map (λ (events, c''). (Event.shown (ti_draw_prompt c'.handler) ∷ events, c''))
        (main_loop files c' keys)
    else some (tell c' malloc_error color_red ∷ Event.exited 1 ∷ [], c')
