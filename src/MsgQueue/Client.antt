-- ===== src/MsgQueue/Client.antt =====
-- main of 09_IPC/msq_client.c, on what the calls of a session give.
pub mod Talk
use linux_unix_development.Common.{
  ℕ, Bool, true, false, Option, none, some, List, [], ◌∷◌, ◌++◌, if◌then◌else◌, Outcome, ok, exit,
}
use linux_unix_development.Common.Bytes.{codes}
use linux_unix_development.MsgQueue.Messages.{Message, login, logout}

-- What the calls give: the identifiers of both queues (`none` is -1), whether the two calls of msgsnd
-- succeed, the message that the client waits for, and what each round of its loop finds until SIGINT
-- clears `ende`.
pub record Calls : Type 0 where
  pub server_id : Option ℕ
  pub client_id : Option ℕ
  pub sends_login : Bool
  pub first : Option Message
  pub rounds : List (Option Message)
  pub sends_logout : Bool

-- The end of the program: whether it is EXIT_SUCCESS, the messages it sent, those it printed, and
-- whether its queue was removed.
pub record End : Type 0 where
  pub success : Bool
  pub sent : List Message
  pub printed : List Message
  pub removed : Bool

failed_at : List Message → List Message → End
failed_at sent printed = record { success = false; sent = sent; printed = printed; removed = false }

-- The messages that %d makes of the identifier, which is -1 where msgget failed.
login_of : Option ℕ → Message
login_of none = record { priority = 2; text = codes "-1:Login" }
login_of (some i) = login i

logout_of : Option ℕ → Message
logout_of none = record { priority = 1; text = codes "-1" }
logout_of (some i) = logout i

-- `while (ende)`: a round prints the message that is there.
pub listen : List (Option Message) → List Message → List Message
listen [] printed = printed
listen (none ∷ rs) printed = listen rs printed
listen (some m ∷ rs) printed = listen rs (printed ++ (m ∷ []))

-- From the answer to the login to the end.
talk : Calls → Option Message → End
talk c none = failed_at (login_of c.client_id ∷ []) []
talk c (some m) =
    let printed = listen c.rounds (m ∷ []) in
    let sent = login_of c.client_id ∷ logout_of c.client_id ∷ [] in
    if c.sends_logout
    then record { success = true; sent = sent; printed = printed; removed = true }
    else failed_at (login_of c.client_id ∷ []) printed

-- main: behind the call of msgget for its own queue the program tests server_id once more.
pub client_main : Calls → End
unfolding failed_at login_of logout_of talk
client_main c = with_server c.server_id
  where
    with_server : Option ℕ → End
    with_server none = failed_at [] []
    with_server (some s) = if c.sends_login then talk c c.first else failed_at [] []
