-- ===== src/Examples/Sessions.antt =====
-- Two connections of one user.
use rsp.Base.{◌≡◌, refl, [], ◌∷◌, none, some, arith}
use rsp.SessionManager.{Entry, SessionManager, login, remove_session, find_session}
use rsp.SessionManager.Login.{find_session-remove_session}
use rsp.Base.Map.{find}
use rsp.Base.{nat_key, bytes_key}

abbrev first : Entry
first = record { conn = 10; uid = [] }

abbrev second : Entry
second = record { conn = 11; uid = [] }

abbrev connected : SessionManager
connected = record {
  sessions = (10, 0) ∷ (11, 1) ∷ [];
  uid_sessions = [];
  store = (0, first) ∷ (1, second) ∷ [];
  next_address = 2;
}

first_held : find 0 connected.store ≡ some first
unfolding find
first_held = refl

second_held : find 1 connected.store ≡ some second
unfolding find
second_held = refl

find_session-remove_session_example :
    (find_session (5 ∷ []) (remove_session 10 (login 0 (5 ∷ []) connected)).1 ≡ none)
    × (find_session (5 ∷ []) (remove_session 10 (login 1 (5 ∷ []) (login 0 (5 ∷ []) connected))).1
        ≡ some 1)
find_session-remove_session_example =
    find_session-remove_session 0 1 first second (5 ∷ []) connected first_held second_held
      (λ e. omega (arith, e)) (λ e. omega (arith, e)) refl
