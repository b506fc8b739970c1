-- ===== src/Http/Token.antt =====
-- GetToken of 11_Network/select/http_server.c. Arrays are lists of bytes, the read position
-- `buf + i` is the part of `buf` from `i` on, and every access is checked against its array.
pub mod Split
pub mod Bounds
pub mod Words
pub mod Rounds
pub mod Limits
use linux_unix_development.Common.{
  ℕ, zero, suc, ◌+◌, ◌-◌, Bool, true, false, not, ◌||◌, ◌&&◌, Option, none, some, List, [], ◌∷◌,
  ltb, ◌==◌, if◌then◌else◌, length, set, Fault, read_out_of_bounds, write_out_of_bounds, Outcome,
  ok, fault, ◌>>=◌, ◌>>◌, check,
}

-- The test of the first inner loop.
abbrev pub is_delimiter : ℕ → ℕ → Bool
is_delimiter delim c = c == delim || c == 32 || c == 0 || c == 9 || c == 13 || c == 10

-- The test of the second inner loop.
abbrev pub is_token : ℕ → ℕ → Bool
is_token delim c =
    not (c == delim)
    && not (c == 32)
    && not (c == 0)
    && not (c == 9)
    && not (c == 10)
    && not (c == 13)

-- The first inner loop.
pub skip : ℕ → List ℕ → Outcome (List ℕ)
skip delim [] = fault read_out_of_bounds
skip delim (c ∷ cs) = if is_delimiter delim c then skip delim cs else ok (c ∷ cs)

-- What a call leaves: the value returned (`none` is -1) and the array `token`.
pub record Got : Type 0 where
  pub len : Option ℕ
  pub token : List ℕ

-- Where a round stops: `-1` at once, or the length and the rest of the buffer.
pub data Round : Type 0 where
  too_long : List ℕ → Round
  word : ℕ → List ℕ → List ℕ → Round

-- The second inner loop, and the NUL behind the token.
pub scan : (delim toklen len : ℕ) → (token buf : List ℕ) → Outcome Round
scan delim toklen len token [] = fault read_out_of_bounds
scan delim toklen len token (c ∷ cs) =
    let more = scan delim toklen (len + 1) (set token len c) cs in
    if is_token delim c
    then (do
      check (ltb len (length token)) write_out_of_bounds
      if ltb (toklen - 1) (len + 1) then ok (too_long (set token len c)) else more)
    else (do
      check (ltb len (length token)) write_out_of_bounds
      ok (word len (set token len 0) (c ∷ cs)))

-- What a round leads to: the return of -1, or the rounds that are left.
abbrev pub resume : (ℕ → List ℕ → List ℕ → Outcome Got) → Round → Outcome Got
resume next (too_long t) = ok (record { len = none; token = t })
resume next (word l t rest) = next l t rest

-- The outer loop, with `n` rounds left: `len` is the local variable, and `buf` stands at `i`.
pub rounds : (delim toklen n len : ℕ) → (token buf : List ℕ) → Outcome Got
rounds delim toklen zero len token buf = ok (record { len = some len; token = token })
rounds delim toklen (suc n) len token buf = do
  check (ltb 0 (length token)) write_out_of_bounds
  at ← skip delim buf
  r ← scan delim toklen 0 (set token 0 0) at
  resume (λ l t rest. rounds delim toklen n l t rest) r

-- `GetToken(buf, n, token, toklen, delim)`. With n = 0 the function returns the uninitialised
-- `len`, here 0; no caller passes 0.
pub get_token : (buf : List ℕ) (n : ℕ) (token : List ℕ) (toklen delim : ℕ) → Outcome Got
get_token buf n token toklen delim = rounds delim toklen n 0 token buf
