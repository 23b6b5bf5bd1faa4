-- ===== src/Server/Frames/Session.antt =====
-- A round of a client's thread and its start keep every condition of Server/Frames.
use chat_app_in_c.Common.{ℕ, Option, none, some, inl, inr, Option-cases, ==_refl}
use chat_app_in_c.CString.{Bytes, codes, str_eq}
use chat_app_in_c.Server.{Ptr, Server, M, pure, ◌>>=◌}
use chat_app_in_c.Server.Handler.{
  Thread, do_exit, do_whisper, do_join, do_leave, do_broadcast, do_unknown,
}
use chat_app_in_c.Server.Handler.Upload.{Next, goes_on, continues, stops, waits_full}
use chat_app_in_c.Server.Handler.Loop.{
  Supply, dispatch, run_command, Received, failed, ended, bytes, client_ready, notify_part,
  notify_ready, after_client, Selected, select_error, ready, round, start_thread,
}
use chat_app_in_c.Server.Frames.{Frame, Holds, Framed, call-Framed, if_Framed, own_write}
use chat_app_in_c.Server.Frames.Handler.{
  join_args-Framed, do_leave-Framed, broadcast_message-Framed, do_unknown-Framed, whisper_to-Framed,
}
use chat_app_in_c.Server.Frames.Upload.{do_sendfile-Framed}

module _ (t : Thread) (w : Frame t.connection) (supply : Supply) where
  abbrev Kept : {A : Type 0} → Option (A × Server) → Type 0
  Kept o = Framed t.connection w o

  then-Framed :
      {A B : Type 0} (m : M A) (b : B) (s : Server) → Kept (m s) → Kept ((m >>= λ _. pure b) s)
  then-Framed m b s h = call-Framed t.connection w (m s) (λ _. pure b) h (λ _ s' h'. h')

  dispatch-Framed :
      (cmd args : Bytes) (s : Server) → Holds t.connection w s → Kept (dispatch t supply cmd args s)
  unfolding dispatch do_exit do_whisper do_join do_broadcast
  dispatch-Framed cmd args s here =
      let c = t.connection in
      if_Framed c w (str_eq cmd (codes "/exit")) _ _ s here (
        if_Framed c w (str_eq cmd (codes "/whisper")) _ _ s
          (then-Framed (do_whisper t cmd args) goes_on s (whisper_to-Framed t w cmd _ _ s here))
          (if_Framed c w (str_eq cmd (codes "/join")) _ _ s
            (then-Framed (do_join t supply.calloc args) goes_on s
              (join_args-Framed t w supply.calloc _ _ s here))
            (if_Framed c w (str_eq cmd (codes "/leave")) _ _ s
              (then-Framed (do_leave t) goes_on s (do_leave-Framed t w s here))
              (if_Framed c w (str_eq cmd (codes "/broadcast")) _ _ s
                (then-Framed (do_broadcast t args) goes_on s
                  (broadcast_message-Framed t w _ s here))
                (if_Framed c w (str_eq cmd (codes "/sendfile")) _ _ s
                  (do_sendfile-Framed t w supply.malloc supply.chunks args s here)
                  (then-Framed (do_unknown t) goes_on s (do_unknown-Framed t w s here)))))))

  run_command-Framed :
      (cmd : Option Bytes) (args : Bytes) (s : Server)
      → Holds t.connection w s
      → Kept (run_command t supply cmd args s)
  unfolding run_command
  run_command-Framed none args s here = elim (Option-cases (s.conn_at t.connection)) [
    | inl e ↦ rw e tt
    | inr (v, e) ↦ rw e (then-Framed (do_unknown t) goes_on _ (do_unknown-Framed t w _ here))
  ]
  run_command-Framed (some cmd) args s here = elim (Option-cases (s.conn_at t.connection)) [
    | inl e ↦ rw e tt
    | inr (v, e) ↦ rw e (dispatch-Framed cmd args _ here)
  ]

  client_ready-Framed :
      (received : Received) (s : Server)
      → Holds t.connection w s
      → Kept (client_ready t supply received s)
  unfolding client_ready
  client_ready-Framed failed s here = elim (Option-cases (s.conn_at t.connection)) [
    | inl e ↦ rw e tt
    | inr (v, e) ↦ rw e here
  ]
  client_ready-Framed ended s here = elim (Option-cases (s.conn_at t.connection)) [
    | inl e ↦ rw e tt
    | inr (v, e) ↦ rw e here
  ]
  client_ready-Framed (bytes buf) s here = run_command-Framed _ _ s here

  notify_part-Framed :
      (notify : Option Received) (s : Server)
      → Holds t.connection w s
      → Kept (notify_part t notify s)
  unfolding notify_part notify_ready
  notify_part-Framed none s here = here
  notify_part-Framed (some (bytes buf)) s here = here
  notify_part-Framed (some failed) s here = here
  notify_part-Framed (some ended) s here = here

  after_client-Framed :
      (notify : Option Received) (next : Next) (s : Server)
      → Holds t.connection w s
      → Kept (after_client t notify next s)
  unfolding after_client
  after_client-Framed notify goes_on s here = notify_part-Framed notify s here
  after_client-Framed notify continues s here = here
  after_client-Framed notify stops s here = here
  after_client-Framed notify (waits_full item filename target) s here = here

  pub round-Framed :
      (selected : Selected) (s : Server) → Holds t.connection w s → Kept (round t supply selected s)
  unfolding round
  round-Framed (select_error text) s here = elim (Option-cases (s.conn_at t.connection)) [
    | inl e ↦ rw e tt
    | inr (v, e) ↦ rw e here
  ]
  round-Framed (ready none notify) s here = notify_part-Framed notify s here
  round-Framed (ready (some received) notify) s here =
      call-Framed t.connection w (client_ready t supply received s) _
        (client_ready-Framed received s here) (λ next s' h'. after_client-Framed notify next s' h')

pub start_thread-Framed :
    (connection : Ptr) (w : Frame connection) (tid : ℕ) (fds : Option (ℕ × ℕ)) (s : Server)
    → Holds connection w s
    → Framed connection w (start_thread connection tid fds s)
unfolding start_thread
start_thread-Framed connection w tid none s here = elim (Option-cases (s.conn_at connection)) [
  | inl e ↦ rw e tt
  | inr (v, e) ↦ rw (e, ==_refl connection) (own_write connection w s _ here)
]
start_thread-Framed connection w tid (some (reader, writer)) s here =
    elim (Option-cases (s.conn_at connection)) [
      | inl e ↦ rw e tt
      | inr (v, e) ↦
          rw (e, ==_refl connection) (w.write _ s.upload_queue _ (own_write connection w s _ here))
    ]
