-- ===== src/Client/Main/Typed.antt =====
-- What the client sends when a user types requests, one after another.
use mathlib.Core.Path.{subst}
use mathlib.Core.Option
use chat_app_in_c.Common.{
  ℕ, ◌+◌, ◌<◌, ◌≡◌, refl, sym, ap, ◌∙◌, true, false, Option, none, some, List, [], ◌∷◌, ◌++◌, ◌==◌,
  length, length-append, append_assoc, append-nil, arith,
}
use chat_app_in_c.CString.{Bytes, codes}
use chat_app_in_c.CString.Token.{Lacks}
use chat_app_in_c.CString.Words.{Lacks-append, c_string_self}
use chat_app_in_c.Terminal.{Pressed, ti_maxline, ti_input_init, key_pressed}
use chat_app_in_c.Terminal.Invariant.{IsValid, init-IsValid, key_pressed-IsValid}
use chat_app_in_c.Terminal.Editing.{line, press, key_pressed_refines}
use chat_app_in_c.Terminal.Editing.Typing.{
  is_control, at_start, press-plain, press-return, Lacks-zero,
}
use chat_app_in_c.Client.{Event, Client, newline}
use chat_app_in_c.Client.Commands.{FileSystem, process_command}
use chat_app_in_c.Client.Main.{
  terminated, submit_line, loop_pressed, loop_round, and_then, main_loop, run_client,
}
use chat_app_in_c.Client.Requests.{
  Request, join, broadcast, leave, exit, whisper, typed, IsRequest, sent_bytes, sends-typed,
}
use chat_app_in_c.Client.Requests.Handled.{some_text}

sent_bytes-append : (es fs : List Event) → sent_bytes (es ++ fs) ≡ sent_bytes es ++ sent_bytes fs
sent_bytes-append [] fs = refl
sent_bytes-append (Event.sent text ∷ es) fs =
    ap (◌++◌ text) (sent_bytes-append es fs)
    ∙ sym (append_assoc text (sent_bytes es) (sent_bytes fs))
sent_bytes-append (Event.shown text ∷ es) fs = sent_bytes-append es fs
sent_bytes-append (Event.printed text ∷ es) fs = sent_bytes-append es fs
sent_bytes-append (Event.shut ∷ es) fs = sent_bytes-append es fs
sent_bytes-append (Event.closed ∷ es) fs = sent_bytes-append es fs
sent_bytes-append (Event.exited status ∷ es) fs = sent_bytes-append es fs

-- The client called `name` has `text` on its line.
pub record Holds (c : Client) (name text : Bytes) : Type 0 where
  pub valid : IsValid c.handler
  pub called : c.username ≡ name
  pub on_line : line c.handler ≡ at_start text

-- The run returns; it has sent `text`, and the client then has `left` on its line.
abbrev pub Ran : Option (List Event × Client) → Bytes → Bytes → Bytes → Type 0
Ran none name left text = ⊥
Ran (some (events, c)) name left text = (sent_bytes events ≡ text) × Holds c name left

Ran-map :
    (events : List Event) (o : Option (List Event × Client)) (name left text : Bytes)
    → Ran o name left text
    → Ran (Option.map (λ (more, c). (events ++ more, c)) o) name left (sent_bytes events ++ text)
Ran-map events none name left text h = absurd h
Ran-map events (some (more, c)) name left text (e, h) =
    (sent_bytes-append events more ∙ ap (◌++◌ (sent_bytes events)) e, h)

Ran-and_then :
    (o : Option (List Event × Client)) (k : Client → Option (List Event × Client))
    (name between left before after : Bytes)
    → Ran o name between before
    → ((c : Client) → Holds c name between → Ran (k c) name left after)
    → Ran (and_then o k) name left (before ++ after)
Ran-and_then none k name between left before after h next = absurd h
Ran-and_then (some (events, c)) k name between left before after (e, h) next =
    subst (λ x. Ran (and_then (some (events, c)) k) name left (x ++ after)) e
      (Ran-map events (k c) name left after (next c h))

Ran-drawn :
    (drawn text name left : Bytes) (c : Client) (o : Option (List Event))
    → Option.map sent_bytes o ≡ some text
    → Holds c name left
    → Ran (Option.map (λ events. (Event.shown drawn ∷ events, c)) o) name left text
Ran-drawn drawn text name left c none e h = absurd (ground (arith, e))
Ran-drawn drawn text name left c (some events) e h = (ground (arith, e), h)

module _ (files : FileSystem) (name : Bytes) where
  -- A line that sends `text`, whichever state its editor is in
  abbrev pub SendsLine : Bytes → Bytes → Type 0
  SendsLine typed_line text =
      (c : Client)
      → c.username ≡ name
      → Option.map sent_bytes (process_command files c typed_line) ≡ some text

  without_line :
      (c : Client) (p : Pressed) (left : Bytes)
      → c.username ≡ name
      → p.command ≡ none
      → IsValid p.handler
      → line p.handler ≡ at_start left
      → Ran (loop_pressed files c p) name left []
  unfolding loop_pressed submit_line
  without_line c p left called e valid there =
      rw e (refl, record { valid = valid; called = called; on_line = there })

  with_line :
      (c : Client) (p : Pressed) (typed_line text : Bytes)
      → c.username ≡ name
      → p.command ≡ some typed_line
      → IsValid p.handler
      → line p.handler ≡ at_start []
      → SendsLine typed_line text
      → Ran (loop_pressed files c p) name [] text
  unfolding loop_pressed submit_line
  with_line c p typed_line text called e valid there sends = rw e (
      Ran-drawn p.output text name [] (record c { handler = p.handler })
        (process_command files (terminated c) typed_line) (sends (terminated c) called)
        (record { valid = valid; called = called; on_line = there }))

  plain_round :
      (c : Client) (text : Bytes) (key : ℕ)
      → Holds c name text
      → is_control key ≡ false
      → length text < 1023
      → Ran (loop_round files c key) name (text ++ key ∷ []) []
  unfolding loop_round
  plain_round c text key h plain room =
      let (command, after) = key_pressed_refines key h.valid in
      let pressed = ap (λ l. press l key) h.on_line ∙ press-plain text key plain room in
      without_line c (key_pressed c.handler key) (text ++ key ∷ []) h.called
        (command ∙ ap (λ x. x.0) pressed) (key_pressed-IsValid key h.valid)
        (after ∙ ap (λ x. x.1) pressed)

  return_round :
      (c : Client) (typed_line text : Bytes)
      → Holds c name typed_line
      → 0 < length typed_line
      → Lacks (λ b. b == 0) typed_line
      → SendsLine typed_line text
      → Ran (loop_round files c 10) name [] text
  unfolding loop_round
  return_round c typed_line text h some_key whole sends =
      let (command, after) = key_pressed_refines 10 h.valid in
      let pressed = ap (λ l. press l 10) h.on_line ∙ press-return typed_line some_key in
      with_line c (key_pressed c.handler 10) typed_line text h.called
        (command ∙ ap (λ x. x.0) pressed ∙ ap some (c_string_self typed_line whole))
        (key_pressed-IsValid 10 h.valid) (after ∙ ap (λ x. x.1) pressed) sends

  typed_line_sends :
      (keys text rest sent after : Bytes) (c : Client)
      → Holds c name text
      → Lacks is_control keys
      → Lacks is_control text
      → length text + length keys < ti_maxline
      → 0 < length text + length keys
      → SendsLine (text ++ keys) sent
      → ((c' : Client) → Holds c' name [] → Ran (main_loop files c' rest) name [] after)
      → Ran (main_loop files c (keys ++ 10 ∷ rest)) name [] (sent ++ after)
  unfolding main_loop
  typed_line_sends [] text rest sent after c h plain plain_text fits some_key sends next =
      Ran-and_then (loop_round files c 10) (λ c'. main_loop files c' rest) name [] [] sent after
        (return_round c text sent h (omega arith) (Lacks-zero text plain_text)
          (rw (append-nil text) at sends))
        next
  typed_line_sends (key ∷ keys) text rest sent after c h plain plain_text fits some_key sends next =
      Ran-and_then (loop_round files c key) (λ c'. main_loop files c' (keys ++ 10 ∷ rest)) name
        (text ++ key ∷ []) [] [] (sent ++ after) (plain_round c text key h plain.0 (omega arith))
        (λ c' h'.
          typed_line_sends keys (text ++ key ∷ []) rest sent after c' h' plain.1
            (Lacks-append is_control text (key ∷ []) plain_text (plain.0, tt))
            (omega (arith, length-append text (key ∷ [])))
            (omega (arith, length-append text (key ∷ [])))
            (rw (append_assoc text (key ∷ []) keys) sends) next)

-- The keys for requests, one line each
abbrev pub typed_all : List Request → Bytes
typed_all [] = []
typed_all (r ∷ rs) = typed r ++ 10 ∷ typed_all rs

-- Each request is one of a user called so, its line has no control byte, and it fits the editor.
abbrev pub AreTypable : Client → List Request → Type 0
AreTypable c [] = Unit
AreTypable c (r ∷ rs) =
    IsRequest c r × Lacks is_control (typed r) × (length (typed r) < ti_maxline) × AreTypable c rs

same_name :
    (c c' : Client) (r : Request) → c'.username ≡ c.username → IsRequest c r → IsRequest c' r
same_name c c' (join room) e h = h
same_name c c' (broadcast message) e h = h
same_name c c' leave e h = h
same_name c c' exit e h = h
same_name c c' (whisper user message) e (h, m, ne) = (h, m, λ same. ne (same ∙ e))

main_loop-requests :
    (files : FileSystem) (owner c : Client) (rs : List Request)
    → Holds c owner.username []
    → AreTypable owner rs
    → Ran (main_loop files c (typed_all rs)) owner.username [] (typed_all rs)
unfolding main_loop
main_loop-requests files owner c [] h typable = (refl, h)
main_loop-requests files owner c (r ∷ rs) h (ok, plain, fits, more) =
    subst (Ran (main_loop files c (typed r ++ 10 ∷ typed_all rs)) owner.username [])
      (append_assoc (typed r) newline (typed_all rs))
      (typed_line_sends files owner.username (typed r) [] (typed_all rs) (typed r ++ newline)
        (typed_all rs) c h plain tt (omega arith) (omega (arith, some_text r))
        (λ c' e. sends-typed files c' r (same_name owner c' r e ok) fits)
        (λ c' h'. main_loop-requests files owner c' rs h' more))

Ran-first :
    (drawn name left text : Bytes) (o : Option (List Event × Client))
    → Ran o name left text
    → Ran (Option.map (λ (events, c). (Event.shown drawn ∷ events, c)) o) name left text
Ran-first drawn name left text none h = h
Ran-first drawn name left text (some (events, c)) h = h

init-Holds :
    (c : Client) (prompt : Bytes)
    → length c.handler.buffer ≡ ti_maxline
    → Holds (record c { handler = ti_input_init c.handler prompt }) c.username []
unfolding ti_input_init
init-Holds c prompt size = record {
  valid = init-IsValid c.handler prompt size;
  called = refl;
  on_line = ground arith;
}

-- A user who types requests, one line each, makes the client send exactly these lines, in this order and
-- byte by byte, from the start of its editor on; it then waits with an empty line. No line has a control
-- byte, each fits the editor, the names are words, and there is memory for the receiver's argument.
pub typed_requests_sent :
    (files : FileSystem) (c : Client) (rs : List Request)
    → length c.handler.buffer ≡ ti_maxline
    → AreTypable c rs
    → Ran (run_client files c true (typed_all rs)) c.username [] (typed_all rs)
unfolding run_client
typed_requests_sent files c rs size typable =
    let started = record c { handler = ti_input_init c.handler (codes "> ") } in
    Ran-first _ c.username [] (typed_all rs) (main_loop files started (typed_all rs))
      (main_loop-requests files c started rs (init-Holds c (codes "> ") size) typable)
