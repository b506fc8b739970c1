-- ===== src/Http/Main/Session.antt =====
-- A session of the child.
use linux_unix_development.Common.{
  ℕ, zero, suc, ◌≡◌, Option, none, some, List, [], ◌∷◌, ◌++◌, Outcome, ok,
}
use linux_unix_development.System.Writer.{Writer, IsWriter, IsReliable}
use linux_unix_development.Http.Header.{Calendar}
use linux_unix_development.Http.Header.Bytes.{IsCalendar}
use linux_unix_development.Http.Request.{FileData, joined}
use linux_unix_development.Http.Request.FirstLine.{IsTarget, request_line}
use linux_unix_development.Http.Request.Reply.{reply_bytes}
use linux_unix_development.Http.Main.{Poll, failed, other, ready, Child, closed}

-- The rounds in which the client asks for these targets, one after the other, among rounds of other
-- descriptors. Something may stand behind the empty line of a request.
pub data Session : List Poll → List (List ℕ) → Type 0 where
  silent : Session [] []
  pause : {ps : List Poll} {us : List (List ℕ)} → Session ps us → Session (other ∷ ps) us
  asks :
      {ps : List Poll} {us : List (List ℕ)} (n : ℕ) (reads : List (List ℕ)) (u behind : List ℕ)
      → IsTarget u
      → joined reads ≡ request_line u ++ (13 ∷ 10 ∷ behind)
      → Session ps us
      → Session (ready (suc n) reads ∷ ps) (u ∷ us)

-- What ends a session for sure: the client is gone, or select fails.
abbrev pub IsLast : Poll → Type 0
IsLast failed = Unit
IsLast other = ⊥
IsLast (ready zero input) = Unit
IsLast (ready (suc n) input) = ⊥

-- An answer, and what follows it unless it is the error page.
abbrev pub before : (cal : Calendar) (now : ℕ) → Option FileData → List ℕ → List ℕ
before cal now none later = reply_bytes cal now none
before cal now (some f) later = reply_bytes cal now (some f) ++ later

-- The bytes of the answers to these targets in turn, up to the first one that names no file.
pub session_bytes :
    (cal : Calendar) (files : List ℕ → Option FileData) (now : ℕ) → List (List ℕ) → List ℕ
session_bytes cal files now [] = []
session_bytes cal files now (u ∷ us) =
    before cal now (files (b'.' ∷ u)) (session_bytes cal files now us)

module _ {w : Writer} {sent : w.Conn → List ℕ} (ok_w : IsWriter w sent) (rel : IsReliable w)
    (cal : Calendar) (c : IsCalendar cal) (files : List ℕ → Option FileData) (now : ℕ) where
  -- The child closes the connection and has sent these bytes on it.
  abbrev pub Closes : Outcome (Child w) → w.Conn → List ℕ → Type 0
  Closes o s x = (t : w.Conn) × (o ≡ ok (closed t)) × (sent t ≡ sent s ++ x)
