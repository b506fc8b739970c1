-- ===== src/Http/Request/Target.antt =====
-- The target of a GET request: the second word of the request line, and the file name made of it.
use linux_unix_development.Common.{
  ℕ, zero, suc, ◌<◌, ◌≡◌, refl, ap, ◌∙◌, inl, inr, false, some, List, [], ◌∷◌, ◌++◌, Bool-cases,
  length, get_elem?, ok, arith,
}
use linux_unix_development.Common.Bytes.{c_string, c_string-split, NoNul, NoNul-c_string}
use linux_unix_development.Common.Strings.{zeros, length-zeros}
use linux_unix_development.Http.Token.{is_token, get_token}
use linux_unix_development.Http.Token.Split.{flush, words_from, words}
use linux_unix_development.Http.Token.Rounds.{Short, get_token-word}

-- What stands before a NUL has its own words.
flush-append : (acc : List ℕ) (ws vs : List (List ℕ)) → flush acc (ws ++ vs) ≡ flush acc ws ++ vs
flush-append [] ws vs = refl
flush-append (a ∷ acc) ws vs = refl

words_from-append :
    (delim : ℕ) (acc x r : List ℕ)
    → words_from delim acc (x ++ (0 ∷ r))
      ≡ words_from delim acc (x ++ (0 ∷ [])) ++ words_from delim [] r
unfolding words_from
words_from-append delim acc [] r =
    rw (let e : is_token delim 0 ≡ false = ground arith in e)
      (flush-append acc [] (words_from delim [] r))
words_from-append delim acc (c ∷ x) r = elim (Bool-cases (is_token delim c)) [
  | inl t ↦ rw t (words_from-append delim (acc ++ (c ∷ [])) x r)
  | inr t ↦ rw t (ap (flush acc) (words_from-append delim [] x r) ∙ flush-append acc _ _)
]

pub words-append :
    (delim : ℕ) (x r : List ℕ)
    → words delim (x ++ (0 ∷ r)) ≡ words delim (x ++ (0 ∷ [])) ++ words delim r
unfolding words
words-append delim x r = words_from-append delim [] x r

Short-first :
    (cap : ℕ) (ws : List (List ℕ)) (w : List ℕ)
    → get_elem? ws 0 ≡ some w
    → length w < cap
    → Short cap 1 ws
Short-first cap [] w g l = absurd (cc)
Short-first cap (v ∷ ws) w g l = let v' : w ≡ v = cc in (omega (arith, ap length v'), tt)

Short-get :
    (cap n : ℕ) (ws : List (List ℕ)) (w : List ℕ)
    → Short cap (suc n) ws
    → get_elem? ws n ≡ some w
    → length w < cap
Short-get cap n [] w h g = absurd (cc)
Short-get cap zero (v ∷ ws) w h g = let v' : v ≡ w = cc in omega (arith, ap length v')
Short-get cap (suc n) (v ∷ ws) w h g = Short-get cap n ws w h.1 g

-- A request line whose first two words have less than 511 bytes, the second of them being `u`,
-- which has a path component, the first of less than 255 bytes.
pub record HasTarget (headline u : List ℕ) : Type 0 where
  pub short : Short 511 2 (words 0 headline)
  pub target : get_elem? (words 0 headline) 1 ≡ some u
  pub component :
      (d : List ℕ) × (ds : List (List ℕ)) × (words b'/' (u ++ (0 ∷ [])) ≡ d ∷ ds) × (length d < 255)

-- The two calls of GetToken in the branch for GET, on such a line.
pub tokens-HasTarget :
    {headline u : List ℕ}
    → HasTarget headline u
    → (uri : List ℕ) × (dir : _) × (get_token headline 2 (zeros 512) 1024 0
        ≡ ok (record { len = some (length u); token = uri }))
      × (get_token uri 1 (zeros 255) 255 b'/' ≡ ok dir)
      × (c_string uri ≡ u)
      × (length u < 511)
      × NoNul u
tokens-HasTarget {headline} {u} h =
    let (uri, eq, ct, lt) =
      get_token-word headline (zeros 512) 1 1024 0 511 u (omega arith)
        (omega (arith, length-zeros 512)) h.short h.target in
    let small = Short-get 511 1 (words 0 headline) u h.short h.target in
    let (r, split) = c_string-split uri (omega (arith, ap length ct, length-zeros 512)) in
    let (d, ds, comp, l) = h.component in
    let first : get_elem? (words b'/' uri) 0 ≡ some d =
      ap (λ t. get_elem? (words b'/' t) 0) (split ∙ ap (λ y. y ++ (0 ∷ r)) ct)
      ∙ ap (λ ws. get_elem? ws 0) (words-append b'/' u r ∙ ap (λ ws. ws ++ words b'/' r) comp) in
    let (dir, eq', _, _) =
      get_token-word uri (zeros 255) 0 255 b'/' 255 d (omega arith)
        (omega (arith, length-zeros 255)) (Short-first 255 (words b'/' uri) d first l) first in
    (
      uri,
      record { len = some (length d); token = dir },
      eq,
      eq',
      ct,
      small,
      rw (← ct) (NoNul-c_string uri),
    )
