-- ===== src/Http/Request/Lines.antt =====
-- The loop of httpd that reads the header.
use linux_unix_development.Common.{
  Ends, Ends-bind, ℕ, zero, suc, ◌≤◌, ◌<◌, ◌≡◌, ◌∙◌, inl, inr, Bool, true, false, List, [], ◌∷◌,
  ◌++◌, ◌==◌, if◌then◌else◌, Bool-cases, ltb, ltb→lt, length, length-append, length-drop, drop,
  Outcome, ok, fault, exit, out_of_fuel, ◌>>=◌, arith,
}
use linux_unix_development.Common.Bytes.{c_string, str_eq, codes}
use linux_unix_development.Common.Strings.{store, strcpy, strcat, line}
use linux_unix_development.Http.Token.{Got, get_token}
use linux_unix_development.Http.Token.Bounds.{TokenSafe, get_token-TokenSafe}
use linux_unix_development.Http.Request.{
  Locals, connection, first_line, next_line, header_line, is_blank, read_header,
}

-- fgets takes something from a stream that is not at its end.
line-rest : (n : ℕ) (cs : List ℕ) → length (line n cs).1 ≤ length cs
unfolding line
line-rest zero cs = omega arith
line-rest (suc n) [] = omega arith
line-rest (suc n) (c ∷ cs) = elim (Bool-cases (c == 10)) [
  | inl e ↦ rw e (omega arith)
  | inr e ↦ rw e (omega (arith, line-rest n cs))
]

line-shrinks : (n c : ℕ) (cs : List ℕ) → length (line (suc n) (c ∷ cs)).1 ≤ length cs
unfolding line
line-shrinks n c cs = elim (Bool-cases (c == 10)) [
  | inl e ↦ rw e (omega arith)
  | inr e ↦ rw e (line-rest n cs)
]

-- The sizes of the arrays, as they are declared.
pub record HasSizes (l : Locals) : Type 0 where
  pub buf : length l.buf ≡ 512
  pub method : length l.method ≡ 255
  pub headline : length l.headline ≡ 1024
  pub request_header : length l.request_header ≡ 2048
  pub title : length l.title ≡ 32
  pub value : length l.value ≡ 128

pub store-Ends : (dst x : List ℕ) → Ends (λ d. length d ≡ length dst) (store dst x)
store-Ends dst x = elim (Bool-cases (ltb (length x) (length dst))) [
  | inl e ↦ rw e (
      omega (
        arith,
        length-append x (0 ∷ drop (suc (length x)) dst),
        length-drop (suc (length x)) dst,
        ltb→lt (length x) (length dst) e,
      ))
  | inr e ↦ rw e tt
]

pub get_token-Ends :
    (buf token : List ℕ) (n toklen delim : ℕ)
    → 0 < toklen
    → toklen ≤ length token
    → Ends (λ g. length g.token ≡ length token) (get_token buf n token toklen delim)
get_token-Ends buf token n toklen delim p k =
    weaken _ (get_token-TokenSafe buf token n toklen delim p k)
  where
    weaken :
        (o : Outcome Got) → TokenSafe (length token) o → Ends (λ g. length g.token ≡ length token) o
    weaken (ok g) h = h
    weaken (fault e) h = tt
    weaken (exit c) h = tt
    weaken out_of_fuel h = h

-- The postcondition of a step that gives an array of the size that it was given.
abbrev Keeps : List ℕ → List ℕ → Type 0
Keeps old new = length new ≡ length old

abbrev KeepsToken : List ℕ → Got → Type 0
KeepsToken old g = length g.token ≡ length old

connection-Ends : (l : Locals) → HasSizes l → Ends HasSizes (connection l)
unfolding connection
connection-Ends l h =
    Ends-bind (KeepsToken l.value) HasSizes (get_token l.buf 2 l.value 128 b' ') _
      (get_token-Ends l.buf l.value 2 128 b' ' (omega arith) (omega (arith, h.value)))
      λ g e. record {
        buf = h.buf;
        method = h.method;
        headline = h.headline;
        request_header = h.request_header;
        title = h.title;
        value = e ∙ h.value;
      }

title-Ends :
    (l : Locals) (r : List ℕ)
    → HasSizes l
    → length r ≡ 2048
    → Ends HasSizes (
        get_token l.buf 1 l.title 32 b':' >>= λ g.
        let l' = record l { request_header = r; title = g.token } in
        if str_eq (c_string g.token) (codes "Connection") then connection l' else ok l')
title-Ends l r h e =
    Ends-bind (KeepsToken l.title) HasSizes (get_token l.buf 1 l.title 32 b':') _
      (get_token-Ends l.buf l.title 1 32 b':' (omega arith) (omega (arith, h.title)))
      λ g e'.
        let l' = record l { request_header = r; title = g.token } in
        let h' : HasSizes l' = record {
          buf = h.buf;
          method = h.method;
          headline = h.headline;
          request_header = e;
          title = e' ∙ h.title;
          value = h.value;
        } in
        elim (Bool-cases (str_eq (c_string g.token) (codes "Connection"))) [
          | inl y ↦ rw y (connection-Ends l' h')
          | inr n ↦ rw n h'
        ]

first-Ends :
    (l : Locals) (r : List ℕ)
    → HasSizes l
    → length r ≡ 1024
    → Ends HasSizes (
        get_token r 1 l.method 255 0 >>= λ g.
        ok (record l { headline = r; method = g.token; is_first = false }))
first-Ends l r h e =
    Ends-bind (KeepsToken l.method) HasSizes (get_token r 1 l.method 255 0) _
      (get_token-Ends r l.method 1 255 0 (omega arith) (omega (arith, h.method)))
      λ g e'. record {
        buf = h.buf;
        method = e' ∙ h.method;
        headline = e;
        request_header = h.request_header;
        title = h.title;
        value = h.value;
      }

first_line-Ends : (l : Locals) → HasSizes l → Ends HasSizes (first_line l)
unfolding first_line
first_line-Ends l h =
    Ends-bind (Keeps l.headline) HasSizes (strcpy l.headline l.buf) _
      (store-Ends l.headline (c_string l.buf)) λ r e. first-Ends l r h (e ∙ h.headline)

next_line-Ends : (l : Locals) → HasSizes l → Ends HasSizes (next_line l)
unfolding next_line
next_line-Ends l h =
    Ends-bind (Keeps l.request_header) HasSizes (strcat l.request_header l.buf) _
      (store-Ends l.request_header (c_string l.request_header ++ c_string l.buf))
      λ r e. title-Ends l r h (e ∙ h.request_header)

if-Ends :
    {A : Type 0} (P : A → Type 0) (b : Bool) (x y : Outcome A)
    → Ends P x
    → Ends P y
    → Ends P (if b then x else y)
if-Ends P true x y h k = h
if-Ends P false x y h k = k

header_line-Ends : (l : Locals) → HasSizes l → Ends HasSizes (header_line l)
unfolding header_line
header_line-Ends l h =
    if-Ends HasSizes l.is_first (first_line l) (next_line l) (first_line-Ends l h)
      (next_line-Ends l h)

-- What the loop leaves when it ends without a fault.
abbrev pub HeaderRead : Locals × List ℕ → Type 0
HeaderRead (l, rest) = HasSizes l × (is_blank l.buf ≡ true)

-- On any input and with more fuel than bytes, the loop that reads the header ends: with a fault, or
-- at an empty line in the buffer and with every array of its declared size.
pub read_header-Ends :
    (fuel : ℕ) (input : List ℕ) (l : Locals)
    → length input < fuel
    → HasSizes l
    → Ends HeaderRead (read_header fuel input l)
unfolding read_header
read_header-Ends zero input l f h = absurd (omega arith)
read_header-Ends (suc fuel) [] l f h = tt
read_header-Ends (suc fuel) (c ∷ cs) l f h =
    let x = (line 2047 (c ∷ cs)).0 in
    let rest = (line 2047 (c ∷ cs)).1 in
    Ends-bind (Keeps l.buf) HeaderRead (store l.buf x) _ (store-Ends l.buf x) λ b e.
      let h' : HasSizes (record l { buf = b }) = record {
        buf = e ∙ h.buf;
        method = h.method;
        headline = h.headline;
        request_header = h.request_header;
        title = h.title;
        value = h.value;
      } in
      elim (Bool-cases (is_blank b)) [
        | inl y ↦ rw y (h', y)
        | inr n ↦ rw n (
            Ends-bind HasSizes HeaderRead (header_line (record l { buf = b }))
              (read_header fuel rest) (header_line-Ends (record l { buf = b }) h')
              λ l' k. read_header-Ends fuel rest l' (omega (arith, line-shrinks 2046 c cs)) k)
      ]
