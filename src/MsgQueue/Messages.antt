-- ===== src/MsgQueue/Messages.antt =====
-- The messages of 09_IPC/msq_header.h, and the texts that the client and the server put in them.
-- A text stands for the string in the array `message`.
use linux_unix_development.Common.{
  ℕ, ◌≡◌, refl, ap, ◌∙◌, Option, none, some, List, [], ◌∷◌, ◌++◌, append-nil, sym, ◌==◌,
  if◌then◌else◌,
}
use linux_unix_development.Common.Bytes.{codes}
use linux_unix_development.Common.Decimal
use linux_unix_development.Common.Decimal.{is_space}

-- `client2server` and `server2client`.
pub record Message : Type 0 where
  pub priority : ℕ
  pub text : List ℕ

-- What 09_IPC/msq_client.c sends when it starts: `sprintf(c2s.message, "%d:Login", client_id)`.
unfoldable pub login : ℕ → Message
login client_id = record { priority = 2; text = Decimal.print client_id ++ (b':' ∷ codes "Login") }

-- What it sends at the end: `sprintf(c2s.message, "%d", client_id)`.
unfoldable pub logout : ℕ → Message
logout client_id = record { priority = 1; text = Decimal.print client_id }

-- The conversion %s: white space, then the bytes up to the next white space.
word : List ℕ → List ℕ
word [] = []
word (c ∷ cs) = let rest = word cs in if is_space c then [] else c ∷ rest

read_word : List ℕ → List ℕ
unfolding word
read_word cs = word (Decimal.skip_space cs)

-- The word behind the colon of "%d:%s", which is stored if it is not empty.
colon_word : List ℕ → List ℕ → List ℕ
unfolding read_word
colon_word [] old = old
colon_word (c ∷ cs) old = if c == b':' then stored (read_word cs) else old
  where
    stored : List ℕ → List ℕ
    stored [] = old
    stored (d ∷ ds) = d ∷ ds

-- `sscanf(message, "%d", &client_id)`: a conversion that fails leaves the variable.
unfoldable pub scan_id : List ℕ → ℕ → ℕ
scan_id text old = kept (Decimal.read text)
  where
    kept : Option (ℕ × List ℕ) → ℕ
    kept none = old
    kept (some (n, rest)) = n

-- `sscanf(message, "%d:%s", &client_id, puffer)`
unfoldable pub scan_pair : List ℕ → ℕ × List ℕ → ℕ × List ℕ
unfolding colon_word
scan_pair text (id, puffer) = kept (Decimal.read text)
  where
    kept : Option (ℕ × List ℕ) → ℕ × List ℕ
    kept none = (id, puffer)
    kept (some (n, rest)) = (n, colon_word rest puffer)

-- The server reads back the identifier and the word that the client wrote.
pub scan_pair-login :
    (client_id : ℕ) (old : ℕ × List ℕ)
    → scan_pair (login client_id).text old ≡ (client_id, codes "Login")
unfolding scan_pair login Decimal.skip_space
scan_pair-login client_id (id, puffer) =
    rw (Decimal.read-print client_id (b':' ∷ codes "Login") refl)

pub scan_id-logout : (client_id old : ℕ) → scan_id (logout client_id).text old ≡ client_id
unfolding scan_id logout
scan_id-logout client_id old = rw (
    let e : Decimal.read (Decimal.print client_id) ≡ some (client_id, []) =
      ap Decimal.read (sym (append-nil (Decimal.print client_id)))
      ∙ Decimal.read-print client_id [] tt in
    e)
