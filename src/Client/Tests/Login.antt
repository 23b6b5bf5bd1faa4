-- ===== src/Client/Tests/Login.antt =====
-- A user who chooses a name that is free.
use chat_app_in_c.Common.{refl, some, [], ◌∷◌}
use chat_app_in_c.CString.{codes, c_string, str_eq, isalnum}
use chat_app_in_c.Server.{Server, Event}
use chat_app_in_c.Server.Accept as Accept
use chat_app_in_c.Server.Tests.{running, two_users}
use chat_app_in_c.Client.Login.{login_round}
use chat_app_in_c.Client.Login.Agreement.{Agree, reply_to, login_agrees}
use chat_app_in_c.Server.Names.{is_valid_username, all_alnum}
use chat_app_in_c.Server.Connections.{find_connection, find_slot, find_user, find_free_slot}
use chat_app_in_c.Server.Rooms.{find_free}
use chat_app_in_c.Server.Accept.Text
use chat_app_in_c.Server.Accept.Register.{registered}

-- The server once it has accepted the name
abbrev with_carol : Server
with_carol = record running {
  world = registered two_users 3 2 12 (codes "carol");
  trace =
      Event.printed (Text.username_ok_log (codes "carol"))
      ∷ Event.logged (Text.username_ok_log (codes "carol"))
      ∷ Event.sent 12 Text.username_ok
      ∷ [];
}

login_agrees_example :
    Agree
      (Accept.accepted 2 3)
      (login_round (some (codes "carol\n")) (some (reply_to 12 with_carol.trace))).1
      with_carol
unfolding Accept.handshake_round Accept.drop_newline Accept.register_name Accept.unless_taken
    Accept.take_slot Accept.insert_user is_valid_username all_alnum find_connection find_slot
    find_user find_free_slot find_free c_string isalnum str_eq
login_agrees_example =
    login_agrees 12 (some 3) (codes "carol\n") running with_carol (Accept.accepted 2 3) refl
