-- ===== src/Http/Token/Split.antt =====
-- What GetToken is meant to compute: the words of the buffer, in order.
use linux_unix_development.Common.{ℕ, List, [], ◌∷◌, ◌++◌, if◌then◌else◌}
use linux_unix_development.Http.Token.{is_token}

-- A finished word is put before the others, unless it is empty.
abbrev pub flush : List ℕ → List (List ℕ) → List (List ℕ)
flush [] ws = ws
flush (c ∷ cs) ws = (c ∷ cs) ∷ ws

-- The words of a text that a delimiter follows; `acc` is the word that is being read.
unfoldable pub words_from : ℕ → List ℕ → List ℕ → List (List ℕ)
words_from delim acc [] = []
words_from delim acc (c ∷ cs) =
    let rest = words_from delim (if is_token delim c then acc ++ (c ∷ []) else []) cs in
    if is_token delim c then rest else flush acc rest

unfoldable pub words : ℕ → List ℕ → List (List ℕ)
unfolding words_from
words delim buf = words_from delim [] buf
