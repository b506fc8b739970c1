-- ===== src/Printing/Mail.antt =====
-- 09_IPC/popen2.c: a mail from stdin to sendmail.
pub mod Sent
use linux_unix_development.Common.{
  ℕ, zero, suc, ◌-◌, Bool, Option, none, some, List, [], ◌∷◌, ◌++◌, if◌then◌else◌, length,
  write_out_of_bounds, Outcome, ok, fault, exit, ◌>>=◌,
}
use linux_unix_development.Common.Bytes.{codes, c_string}
use linux_unix_development.Common.Strings.{store, strcat, line}
use linux_unix_development.Common.Decimal.{is_space, skip_space}
use linux_unix_development.Printing.{gather, put_at}

-- fgets(array, n, stdin): the array, which stays as it is at the end of the input, and what is left.
pub take_line : (n : ℕ) → (array input : List ℕ) → Outcome (List ℕ × List ℕ)
take_line n array [] = ok (array, [])
take_line n array (c ∷ cs) =
    let (x, rest) = line (n - 1) (c ∷ cs) in store array x >>= λ a. ok (a, rest)

-- sub[strlen(sub) - 1] = '\0'
pub cut_last : List ℕ → Outcome (List ℕ)
cut_last sub = at (length (c_string sub))
  where
    at : ℕ → Outcome (List ℕ)
    at zero = fault write_out_of_bounds
    at (suc k) = put_at sub k 0

-- What popen("which sendmail") prints, `none` for NULL, and which commands popen can run.
pub record Shell : Type 0 where
  pub which : Option (List ℕ)
  pub runs : List ℕ → Bool

unfoldable pub word : List ℕ → List ℕ
word [] = []
word (c ∷ cs) = let rest = word cs in if is_space c then [] else c ∷ rest

-- fscanf("%s") into the array of the path.
pub scan_path : (out pfad : List ℕ) → Outcome (List ℕ)
scan_path out pfad = stored (word (skip_space out))
  where
    stored : List ℕ → Outcome (List ℕ)
    stored [] = ok pfad
    stored (c ∷ cs) = store pfad (c ∷ cs)

abbrev pub popened : Option (List ℕ) → Outcome (List ℕ)
popened none = exit 1
popened (some out) = ok out

-- What is printed for a pointer that may be NULL.
abbrev pub part : Option (List ℕ) → (List ℕ → List ℕ) → List ℕ
part none f = []
part (some x) f = f x

-- sendmail: the command that is run, and what it reads. `pfad` is the array for the path, with
-- whatever it holds.
pub sendmail :
    Shell → (pfad to from : List ℕ) → (subject inhalt : Option (List ℕ)) → Outcome (List ℕ × List ℕ)
sendmail shell pfad to from subject inhalt = do
  out ← popened shell.which
  pfad ← scan_path out pfad
  pfad ← strcat pfad (codes " -oi -t")
  let command = c_string pfad
  let text =
      codes "From:"
      ++ from
      ++ codes " To:"
      ++ to
      ++ part subject (λ s. codes "Subject:" ++ s)
      ++ part inhalt (λ i. codes "\n" ++ i ++ codes "\n")
  if shell.runs command then ok (command, text) else exit 1

-- The arrays of main.
pub record Arrays : Type 0 where
  pub to : List ℕ
  pub from : List ℕ
  pub sub : List ℕ
  pub inhalt : List ℕ
  pub puffer : List ℕ
  pub pfad : List ℕ

pub mail_main : Shell → Arrays → (input : List ℕ) → Outcome (List ℕ × List ℕ)
mail_main shell a input = do
  (to, input) ← take_line 255 a.to input
  (from, input) ← take_line 255 a.from input
  (sub, input) ← take_line 255 a.sub input
  sub ← cut_last sub
  inhalt ← put_at a.inhalt 0 0
  (inhalt, input) ← gather 8192 254 (suc (length input)) inhalt a.puffer input
  inhalt ← put_at inhalt 8191 0
  sendmail shell a.pfad (c_string to) (c_string from) (some (c_string sub)) (some (c_string inhalt))
