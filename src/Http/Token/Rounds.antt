-- ===== src/Http/Token/Rounds.antt =====
-- GetToken's outer loop: round by round through the words of the buffer.
use linux_unix_development.Common.{
  ℕ, zero, suc, ◌≤◌, ◌<◌, ◌≡◌, refl, ap, ◌∙◌, some, List, [], ◌∷◌, lt→ltb, length, set, length-set,
  get_elem?, arith, ok, ◌>>=◌, >>=_assoc,
}
use linux_unix_development.Common.Bytes.{c_string}
use linux_unix_development.Http.Token.{skip, word, scan, resume, rounds, get_token}
use linux_unix_development.Http.Token.Split.{words_from, words}
use linux_unix_development.Http.Token.Words.{round-Stored}

-- A round that finishes hands its word on.
pub rounds-step :
    (delim toklen n len l : ℕ) (token buf t rest : List ℕ)
    → 0 < length token
    → (skip delim buf >>= scan delim toklen 0 (set token 0 0)) ≡ ok (word l t rest)
    → rounds delim toklen (suc n) len token buf ≡ rounds delim toklen n l t rest
unfolding rounds
rounds-step delim toklen n len l token buf t rest p e =
    let next = λ (l' : ℕ) (t' rest' : List ℕ). rounds delim toklen n l' t' rest' in
    rw (lt→ltb 0 (length token) p) (
      >>=_assoc (skip delim buf) (scan delim toklen 0 (set token 0 0)) (resume next)
      ∙ ap (λ r. r >>= resume next) e)

-- The first `n` words fit into `toklen` bytes with their terminator.
abbrev pub Short : ℕ → ℕ → List (List ℕ) → Type 0
Short toklen zero ws = Unit
Short toklen (suc n) [] = Unit
Short toklen (suc n) (w ∷ ws) = (length w < toklen) × Short toklen n ws

module _ (delim toklen size cap : ℕ) (j : cap ≤ toklen) (k : cap ≤ size) where
  rounds-word :
      (buf : List ℕ) (n len : ℕ) (token : List ℕ) (ws : List (List ℕ)) (w : List ℕ)
      → length token ≡ size
      → words_from delim [] buf ≡ ws
      → Short cap (suc n) ws
      → get_elem? ws n ≡ some w
      → (t : List ℕ) × (rounds delim toklen (suc n) len token buf
          ≡ ok (record { len = some (length w); token = t }))
        × (c_string t ≡ w)
        × (length t ≡ size)
  rounds-word buf n len token [] w s e h g = absurd (cc)
  rounds-word buf zero len token (v ∷ ws) w s e h g =
      let (t, rest, eq, st) =
        round-Stored delim toklen size buf (set token 0 0) v ws (omega arith) (omega arith)
          (length-set token 0 0 ∙ s) e in
      let v' : v ≡ w = cc in
      (
        t,
        rounds-step delim toklen 0 len (length v) token buf t rest (omega arith) eq
            ∙ unfold rounds in ap (λ x. ok (record { len = some (length x); token = t })) v',
        st.text ∙ v',
        st.room,
      )
  rounds-word buf (suc n) len token (v ∷ ws) w s e h g =
      let (t', rest, eq, st) =
        round-Stored delim toklen size buf (set token 0 0) v ws (omega arith) (omega arith)
          (length-set token 0 0 ∙ s) e in
      let (t, eq', ct, lt) = rounds-word rest n (length v) t' ws w st.room st.others h.1 g in
      (
        t,
        rounds-step delim toklen (suc n) len (length v) token buf t' rest (omega arith) eq ∙ eq',
        ct,
        lt,
      )

-- If the buffer has more than `n` words that a delimiter follows, and the first n + 1 are shorter
-- than both `toklen` and the size of `token`, then `GetToken` with n + 1 returns the length of word
-- n, counted from 0, and leaves that word as the string in `token`.
pub get_token-word :
    (buf token : List ℕ) (n toklen delim cap : ℕ) (w : List ℕ)
    → cap ≤ toklen
    → cap ≤ length token
    → Short cap (suc n) (words delim buf)
    → get_elem? (words delim buf) n ≡ some w
    → (t : List ℕ) × (get_token buf (suc n) token toklen delim
        ≡ ok (record { len = some (length w); token = t }))
      × (c_string t ≡ w)
      × (length t ≡ length token)
unfolding get_token words
get_token-word buf token n toklen delim cap w j k h g =
    rounds-word delim toklen (length token) cap j k buf n 0 token (words_from delim [] buf) w refl
      refl h g
