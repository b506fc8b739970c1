-- ===== src/Terminal/Password.antt =====
-- 13_Terminal/my_getpass.c: a line that is read without being shown.
use linux_unix_development.Common.{
  ℕ, ◌≤◌, ◌<◌, ◌≡◌, refl, sym, ap, ◌∙◌, Bool, true, false, not, List, [], ◌∷◌, ◌++◌, length,
  if◌then◌else◌, arith,
}
use linux_unix_development.Common.Bytes.{c_string, NoNul}
use linux_unix_development.Common.Strings.{line}
use linux_unix_development.Common.Strings.Lines.{c_string-line, line-split, line-short}
use linux_unix_development.Terminal.Attributes.{Attributes}

-- The messages on stdout.
pub data Message : Type 0 where
  tcgetattr_failed tcsetattr_failed echo_is_on echonl_is_off prompt : Message

pub record State : Type 0 where
  pub tty : Attributes
  pub input : List ℕ
  pub passwort : List ℕ
  pub out : List Message

abbrev pub say : Bool → Message → State → State
say test m s = if test then record s { out = s.out ++ (m ∷ []) } else s

-- No output, but the newline.
abbrev pub hidden : Attributes → Attributes
hidden a = record a { echo = false; echonl = true }

-- tcsetattr, which works or prints its message.
abbrev pub set_attributes : (works : Bool) → Attributes → State → State
set_attributes works a s =
    if works then record s { tty = a } else record s { out = s.out ++ (tcsetattr_failed ∷ []) }

-- fgets(passwort, PASS, stdin): at the end of the input the array keeps its string.
abbrev pub read_line : State → List ℕ → State
read_line s [] = s
read_line s (c ∷ cs) =
    let (x, rest) = line 7 (c ∷ cs) in record s { passwort = c_string x; input = rest }

-- my_getpass: `gets`, `sets` and `resets` say whether the calls work, and where the first does not,
-- `unset` is what origstate holds. `passwort` is the string in the array.
pub my_getpass : (gets sets resets : Bool) → (unset : Attributes) → State → State
my_getpass gets sets resets unset s =
    let s1 = say (not gets) tcgetattr_failed s in
    let origstate = if gets then s.tty else unset in
    let s2 = set_attributes sets (hidden origstate) s1 in
    let s3 = say s2.tty.echo echo_is_on s2 in
    let s4 = say (not s2.tty.echonl) echonl_is_off s3 in
    let s5 = say true prompt s4 in set_attributes resets origstate (read_line s5 s5.input)

-- What is read is the beginning of the input.
read_line-split :
    (s : State) (i : List ℕ)
    → NoNul i
    → 0 < length i
    → ((read_line s i).passwort ++ (read_line s i).input ≡ i)
      × (length (read_line s i).passwort ≤ 7)
      × ((read_line s i).out ≡ s.out)
read_line-split s [] h l = absurd (omega arith)
read_line-split s (c ∷ cs) h l =
    let same = c_string-line 7 (c ∷ cs) h in
    (
      ap (λ x. x ++ (line 7 (c ∷ cs)).1) same ∙ sym (line-split 7 (c ∷ cs)),
      omega (arith, ap length same, line-short 7 (c ∷ cs)),
      refl,
    )

-- Where the calls on the terminal work and something without a NUL is typed: the password is the
-- beginning of what is typed, of at most seven bytes, what follows it stays in the input, the only
-- message is the prompt, and the terminal has the attributes that it had.
pub my_getpass-reads :
    (unset : Attributes) (s : State)
    → NoNul s.input
    → 0 < length s.input
    → ((my_getpass true true true unset s).tty ≡ s.tty)
      × ((my_getpass true true true unset s).passwort ++ (my_getpass true true true unset s).input
          ≡ s.input)
      × (length (my_getpass true true true unset s).passwort ≤ 7)
      × ((my_getpass true true true unset s).out ≡ s.out ++ (prompt ∷ []))
unfolding my_getpass
my_getpass-reads unset s h l =
    let asking : State = record s { tty = hidden s.tty; out = s.out ++ (prompt ∷ []) } in
    let (split, short, out) = read_line-split asking s.input h l in (refl, split, short, out)
