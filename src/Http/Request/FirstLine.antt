-- ===== src/Http/Request/FirstLine.antt =====
-- The request line of an HTTP request: its bytes, its words, and how fgets reads it.
use linux_unix_development.Common.{
  ℕ, ◌+◌, ◌<◌, ◌≡◌, refl, ap, ◌∙◌, sym, true, List, [], ◌∷◌, ◌++◌, append_assoc, append-nil, length,
  length-append, arith,
}
use linux_unix_development.Common.Bytes.{codes, NoNul, NoNul-append}
use linux_unix_development.Common.Strings.{line}
use linux_unix_development.Common.Strings.Lines.{NoNewline, line-whole}
use linux_unix_development.Http.Token.{is_token}
use linux_unix_development.Http.Token.Split.{flush, words_from, words}

-- "GET u HTTP/1.1\r\n"
abbrev pub line_body : List ℕ → List ℕ
line_body u = codes "GET " ++ (u ++ codes " HTTP/1.1\r")

abbrev pub request_line : List ℕ → List ℕ
request_line u = line_body u ++ (10 ∷ [])

-- No byte of a target ends a word.
abbrev pub AllToken : List ℕ → Type 0
AllToken [] = Unit
AllToken (c ∷ cs) = (is_token 0 c ≡ true) × AllToken cs

-- A target that fits, with a path component that fits.
pub record IsTarget (u : List ℕ) : Type 0 where
  pub tokens : AllToken u
  pub some_byte : 0 < length u
  pub short : length u < 497
  pub component :
      (d : List ℕ) × (ds : List (List ℕ)) × (words b'/' (u ++ (0 ∷ [])) ≡ d ∷ ds) × (length d < 255)

AllToken-NoNewline : (u : List ℕ) → AllToken u → NoNewline u
AllToken-NoNewline [] h = tt
AllToken-NoNewline (c ∷ u) h = (ground (arith, h.0), AllToken-NoNewline u h.1)

AllToken-NoNul : (u : List ℕ) → AllToken u → NoNul u
AllToken-NoNul [] h = tt
AllToken-NoNul (c ∷ u) h = (ground (arith, h.0), AllToken-NoNul u h.1)

NoNewline-append : (x y : List ℕ) → NoNewline x → NoNewline y → NoNewline (x ++ y)
NoNewline-append [] y h k = k
NoNewline-append (c ∷ x) y h k = (h.0, NoNewline-append x y h.1 k)

-- The bytes of a token are read into the word.
words_from-token :
    (acc u r : List ℕ)
    → AllToken u
    → words_from 0 acc (u ++ (32 ∷ r)) ≡ flush (acc ++ u) (words_from 0 [] r)
unfolding words_from
words_from-token acc [] r h = ap (λ a. flush a (words_from 0 [] r)) (sym (append-nil acc))
words_from-token acc (c ∷ u) r h = rw h.0 (
    words_from-token (acc ++ (c ∷ [])) u r h.1
    ∙ ap (λ a. flush a (words_from 0 [] r)) (append_assoc acc (c ∷ []) u))

flush-some : (u : List ℕ) (ws : List (List ℕ)) → 0 < length u → flush u ws ≡ u ∷ ws
flush-some [] ws h = absurd (omega arith)
flush-some (c ∷ u) ws h = refl

-- The first two words of the line.
pub words-request_line :
    (u z : List ℕ)
    → IsTarget u
    → (ws : List (List ℕ)) × (words 0 (request_line u ++ (0 ∷ z)) ≡ codes "GET" ∷ u ∷ ws)
unfolding words words_from
words-request_line u z i =
    let tail = codes "HTTP/1.1\r" ++ (10 ∷ 0 ∷ z) in
    let shape : ((u ++ codes " HTTP/1.1\r") ++ (10 ∷ [])) ++ (0 ∷ z) ≡ u ++ (32 ∷ tail) =
      append_assoc (u ++ codes " HTTP/1.1\r") (10 ∷ []) (0 ∷ z)
      ∙ append_assoc u (codes " HTTP/1.1\r") (10 ∷ 0 ∷ z) in
    (
      words_from 0 [] tail,
      ap (λ t. codes "GET" ∷ words_from 0 [] t) shape
          ∙ ap (λ l. codes "GET" ∷ l)
              (words_from-token [] u tail i.tokens
                ∙ flush-some u (words_from 0 [] tail) i.some_byte),
    )

pub length-request_line : (u : List ℕ) → length (request_line u) ≡ length u + 15
length-request_line u = omega (
  arith,
  length-append (u ++ codes " HTTP/1.1\r") (10 ∷ []),
  length-append u (codes " HTTP/1.1\r"),
)

pub NoNul-request_line : (u : List ℕ) → AllToken u → NoNul (request_line u)
NoNul-request_line u h =
    NoNul-append (line_body u) (10 ∷ [])
      (NoNul-append (codes "GET ") (u ++ codes " HTTP/1.1\r") (omega arith)
        (NoNul-append u (codes " HTTP/1.1\r") (AllToken-NoNul u h) (omega arith)))
      (omega arith)

-- fgets takes the request line.
pub line-request_line :
    (u rest : List ℕ) → IsTarget u → line 2047 (request_line u ++ rest) ≡ (request_line u, rest)
line-request_line u rest i =
    ap (line 2047) (append_assoc (line_body u) (10 ∷ []) rest)
    ∙ line-whole 2047 (line_body u) rest
        (NoNewline-append (codes "GET ") (u ++ codes " HTTP/1.1\r")
          (refl, (refl, (refl, (refl, tt))))
          (NoNewline-append u (codes " HTTP/1.1\r") (AllToken-NoNewline u i.tokens)
            (refl, (refl, (refl, (refl, (refl, (refl, (refl, (refl, (refl, (refl, tt))))))))))))
        (omega (arith, i.short, length-request_line u, length-append (line_body u) (10 ∷ [])))
