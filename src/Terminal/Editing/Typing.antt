-- ===== src/Terminal/Editing/Typing.antt =====
-- The line editor of client/src/termios_input.c under plain typing: no key of the line edits it.
use chat_app_in_c.Common.{
  ℕ, ◌+◌, ◌<◌, ◌≡◌, refl, ap, ◌∙◌, Bool, false, ◌||◌, none, some, List, [], ◌∷◌, ◌++◌, ◌==◌,
  length-append, arith, append_assoc, append-nil,
}
use chat_app_in_c.Common
use chat_app_in_c.CString.{Bytes, c_string}
use chat_app_in_c.CString.Token.{Lacks}
use chat_app_in_c.CString.Words.{c_string_self}
use chat_app_in_c.Terminal.{ti_maxline, InputHandler, esc_byte}
use chat_app_in_c.Terminal.Invariant.{IsValid}
use chat_app_in_c.Terminal.Editing.{
  Line, append, type_byte, press, line, session, spec_session, session_refines,
}

-- The keys that do more than add a byte to the line, and the byte that would end its string
abbrev pub is_control : ℕ → Bool
is_control c = (c == 13) || (c == 10) || (c == 127) || (c == 8) || (c == esc_byte) || (c == 0)

-- An editor at the start of a line
pub record IsFresh (ih : InputHandler) : Type 0 where
  pub valid : IsValid ih
  pub no_text : ih.length ≡ 0
  pub no_sequence : ih.esc_state ≡ 0

abbrev pub at_start : Bytes → Line
at_start text = record { text = text; filter = 0 }

line-fresh : (ih : InputHandler) → IsFresh ih → line ih ≡ at_start []
line-fresh ih fresh = rw (fresh.no_text, fresh.no_sequence) refl

pub press-plain :
    (text : Bytes) (c : ℕ)
    → is_control c ≡ false
    → Common.length text < 1023
    → press (at_start text) c ≡ (none, at_start (text ++ c ∷ []))
unfolding press type_byte append
press-plain text c h room = ground arith

pub press-return :
    (text : Bytes)
    → 0 < Common.length text
    → press (at_start text) 10 ≡ (some (c_string text), at_start [])
unfolding press
press-return text h = ground arith

spec_session-plain :
    (keys text : Bytes)
    → Lacks is_control keys
    → Common.length text + Common.length keys < ti_maxline
    → 0 < Common.length text + Common.length keys
    → spec_session (at_start text) (keys ++ 10 ∷ []) ≡ c_string (text ++ keys) ∷ []
unfolding spec_session
spec_session-plain [] text h fits some_key =
    rw (press-return text (omega arith), append-nil text) refl
spec_session-plain (c ∷ keys) text h fits some_key = rw (press-plain text c h.0 (omega arith)) (
    spec_session-plain keys (text ++ c ∷ []) h.1 (omega (arith, length-append text (c ∷ [])))
      (omega (arith, length-append text (c ∷ [])))
    ∙ ap (λ t. c_string t ∷ []) (append_assoc text (c ∷ []) keys))

-- Without control bytes there is no zero among them.
pub Lacks-zero : (s : Bytes) → Lacks is_control s → Lacks (λ c. c == 0) s
Lacks-zero [] h = tt
Lacks-zero (c ∷ s) h = (ground arith, Lacks-zero s h.1)

-- Plain keys and a return give `process_command` the line that was typed, byte by byte.
pub session-plain :
    (ih : InputHandler) (keys : Bytes)
    → IsFresh ih
    → Lacks is_control keys
    → Common.length keys < ti_maxline
    → 0 < Common.length keys
    → session ih (keys ++ 10 ∷ []) ≡ keys ∷ []
session-plain ih keys fresh h fits some_key =
    session_refines (keys ++ 10 ∷ []) fresh.valid
    ∙ ap (λ l. spec_session l (keys ++ 10 ∷ [])) (line-fresh ih fresh)
    ∙ spec_session-plain keys [] h (omega arith) (omega arith)
    ∙ ap (λ t. t ∷ []) (c_string_self keys (Lacks-zero keys h))
