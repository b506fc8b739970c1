-- ===== src/MsgQueue/Client/Talk.antt =====
-- A session of the client.
use linux_unix_development.Common.{
  ℕ, ◌≡◌, refl, ap, ◌∙◌, sym, true, Option, none, some, List, [], ◌∷◌, ◌++◌, append-nil,
  append_assoc,
}
use linux_unix_development.Common.Bytes.{codes}
use linux_unix_development.MsgQueue.Messages.{Message, login, logout}
use linux_unix_development.MsgQueue.Client.{
  failed_at, login_of, logout_of, listen, talk, client_main,
}

-- The messages that were there.
abbrev pub there : List (Option Message) → List Message
there [] = []
there (none ∷ rs) = there rs
there (some m ∷ rs) = m ∷ there rs

listen-there : (rs : List (Option Message)) (p : List Message) → listen rs p ≡ p ++ there rs
unfolding listen
listen-there [] p = sym (append-nil p)
listen-there (none ∷ rs) p = listen-there rs p
listen-there (some m ∷ rs) p = listen-there rs (p ++ (m ∷ [])) ∙ append_assoc p (m ∷ []) (there rs)

-- If all calls succeed, the client sends its login and its logout, prints the answer to its login and
-- then every message that a round finds, in order, removes its queue, and ends with EXIT_SUCCESS.
pub client_main-there :
    (s i : ℕ) (m : Message) (rs : List (Option Message))
    → client_main (record {
      server_id = some s;
      client_id = some i;
      sends_login = true;
      first = some m;
      rounds = rs;
      sends_logout = true;
    })
      ≡ record {
        success = true;
        sent = login i ∷ logout i ∷ [];
        printed = m ∷ there rs;
        removed = true;
      }
unfolding client_main talk login_of logout_of
client_main-there s i m rs =
    ap (λ l. record { success = true; sent = login i ∷ logout i ∷ []; printed = l; removed = true })
      (listen-there rs (m ∷ []))

-- Without a queue of its own the client does not end but sends a login for -1.
pub client_main-no_queue :
    (s : ℕ) (rs : List (Option Message))
    → (client_main (record {
      server_id = some s;
      client_id = none;
      sends_login = true;
      first = none;
      rounds = rs;
      sends_logout = true;
    })).sent
      ≡ record { priority = 2; text = codes "-1:Login" } ∷ []
unfolding client_main talk login_of failed_at
client_main-no_queue s rs = refl
