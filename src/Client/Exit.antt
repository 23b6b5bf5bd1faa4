-- ===== src/Client/Exit.antt =====
-- How the client ends: `on_exit_signal` and the end of `recv_thread` in client/src/chatclient.c.
use chat_app_in_c.Common.{ℕ, ◌+◌, Option, none, some, List, [], ◌∷◌, ◌++◌}
use chat_app_in_c.CString.{codes}
use chat_app_in_c.Terminal.{ti_draw_newline, ti_draw_message, exit_message}
use chat_app_in_c.Client.{Event, Client, newline, color_green}

-- `on_exit_signal`, besides the terminal's mode and the mutex; `none` is a `sockfd` of -1.
unfoldable pub on_exit_signal : Option ℕ → ℕ → List Event
on_exit_signal none signo = Event.shown ti_draw_newline ∷ Event.exited (128 + signo) ∷ []
on_exit_signal (some sockfd) signo =
    Event.shown ti_draw_newline ∷ Event.shut ∷ Event.closed ∷ Event.exited (128 + signo) ∷ []

abbrev pub sigterm : ℕ
sigterm = 15

-- `recv_thread` once `recv` gives no more: it reports, and raises SIGTERM.
unfoldable pub disconnected : Client → Option ℕ → List Event
unfolding on_exit_signal
disconnected c sockfd =
    Event.shown
      (ti_draw_message c.handler (codes "Server disconnected." ++ newline) exit_message color_green)
    ∷ Event.shut
    ∷ on_exit_signal sockfd sigterm
