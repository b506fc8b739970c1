-- ===== src/Http/Request/Total.antt =====
-- httpd ends on every request, whatever the calls of send answer.
use linux_unix_development.Common.{
  Ends, Ends-bind, ℕ, suc, ◌+◌, ◌≤◌, ◌≡◌, ◌||◌, Option, none, some, List, [], ◌∷◌, ◌++◌, length,
  length-append, Outcome, ok, ◌>>=◌, Bool-cases, inl, inr, arith,
}
use linux_unix_development.Common.Bytes.{codes, crlf, c_string, str_eq}
use linux_unix_development.Common.Strings.{zeros, length-zeros}
use linux_unix_development.System.Writer.{Status, Writer, IsWriter, Delivered, all, part}
use linux_unix_development.Http.Token.Bounds.{get_token-Ends_any}
use linux_unix_development.Http.Send.Delivery.{send_block-Delivered, send_buf-Delivered}
use linux_unix_development.Http.Header.{Calendar, say, send_http_header}
use linux_unix_development.Http.Request.{
  Verdict, Locals, initial, FileData, error404, deliver, not_found, found, respond, serve, answer,
  httpd, joined,
}
use linux_unix_development.Http.Request.Lines.{store-Ends, HasSizes, HeaderRead, read_header-Ends}

pub initial-HasSizes : HasSizes initial
unfolding initial
initial-HasSizes = record {
  buf = length-zeros 512;
  method = length-zeros 255;
  headline = length-zeros 1024;
  request_header = length-zeros 2048;
  title = length-zeros 32;
  value = length-zeros 128;
}

abbrev Any : {A : Type 0} → A → Type 0
Any a = Unit

Delivered-Ends :
    {w : Writer} {sent : w.Conn → List ℕ} {s : w.Conn} {x : List ℕ} {o : Outcome (Status × w.Conn)}
    → Delivered w sent s x o
    → Ends Any o
Delivered-Ends (all h) = tt
Delivered-Ends (part p q d h f) = tt

module _ {w : Writer} {sent : w.Conn → List ℕ} (ok_w : IsWriter w sent) where
  say-Ends : (x : List ℕ) (s : w.Conn) → Ends Any (say w x s)
  unfolding say
  say-Ends x s =
      Ends-bind Any Any _ _ (Delivered-Ends (send_buf-Delivered ok_w s (x ++ (0 ∷ [])))) λ r h. tt

  then-Ends :
      (x : List ℕ) (s : w.Conn) (k : w.Conn → Outcome w.Conn)
      → ((t : w.Conn) → Ends Any (k t))
      → Ends Any (say w x s >>= k)
  then-Ends x s k h = Ends-bind Any Any (say w x s) k (say-Ends x s) λ t _. h t

  module _ (cal : Calendar) (files : List ℕ → Option FileData) (now : ℕ) where
    modified-Ends :
        (pftime : Option ℕ) (s : w.Conn)
        → Ends Any (elim pftime [ none ↦ ok s | some t ↦ say w (cal.last_modified t) s ])
    modified-Ends none s = tt
    modified-Ends (some t) s = say-Ends (cal.last_modified t) s

    header-Ends :
        (code : ℕ) (phase : List ℕ) (size : ℕ) (pftime : Option ℕ) (s : w.Conn)
        → Ends Any (send_http_header w cal now code phase size pftime s)
    unfolding send_http_header
    header-Ends code phase size pftime s = then-Ends _ s _ λ s. then-Ends _ s _ λ s.
        then-Ends _ s _ λ s. Ends-bind Any Any _ _ (modified-Ends pftime s) λ s _.
          then-Ends _ s _
            λ s. then-Ends _ s _ λ s. then-Ends _ s _ λ s. then-Ends _ s _ λ s. say-Ends crlf s

    deliver-Ends :
        (code : ℕ) (phase : List ℕ) (pftime : Option ℕ) (body : List ℕ) (size : ℕ) (s : w.Conn)
        → size ≤ length body
        → Ends Any (deliver w cal files now code phase pftime body size s)
    unfolding deliver
    deliver-Ends code phase pftime body size s l =
        Ends-bind Any Any _ _ (header-Ends code phase size pftime s) λ s _.
          Ends-bind Any Any _ _ (Delivered-Ends (send_block-Delivered ok_w s body size l))
            λ r _. say-Ends (crlf ++ crlf) r.1

    respond-Ends :
        (v : Verdict) (o : Option FileData) (s : w.Conn) → Ends Any (respond w cal files now v o s)
    unfolding respond not_found found
    respond-Ends v none s =
        Ends-bind Any Any _ _
          (deliver-Ends 404 (codes "FILE NOT FOUND.") none (error404 ++ (0 ∷ []))
            (length error404 + 1) s (omega (arith, length-append error404 (0 ∷ []))))
          λ t _. tt
    respond-Ends v (some f) s =
        Ends-bind Any Any _ _
          (deliver-Ends 200 (codes "OK") (some f.mtime) f.content (length f.content) s
            (omega arith))
          λ t _. tt

    serve-Ends : (l : Locals) (s : w.Conn) → Ends Any (serve w cal files now l s)
    unfolding serve
    serve-Ends l s =
        Ends-bind Any Any _ _ (get_token-Ends_any l.headline (zeros 512) 2 1024 0) λ g _.
          Ends-bind Any Any _ _ (get_token-Ends_any g.token (zeros 255) 1 255 b'/') λ d _.
            Ends-bind (λ p. length p ≡ length (zeros 512)) Any _ _
              (store-Ends (zeros 512) (b'.' ∷ c_string g.token))
              λ path _. respond-Ends l.retval (files (c_string path)) s

    answer-Ends : (l : Locals) (s : w.Conn) → Ends Any (answer w cal files now l s)
    unfolding answer
    answer-Ends l s =
        elim (Bool-cases
          (str_eq (c_string l.method) (codes "GET") || str_eq (c_string l.method) (codes "get"))) [
            | inl e ↦ rw e (serve-Ends l s)
            | inr e ↦ rw e tt
          ]

    -- On any bytes from the client, in whatever reads they come, and whatever the calls of send answer,
    -- httpd ends: it returns or faults, and its fuel is enough.
    pub httpd-Ends :
        (reads : List (List ℕ)) (s : w.Conn) → Ends (λ r. Unit {0}) (httpd w cal files now reads s)
    unfolding httpd
    httpd-Ends reads s =
        Ends-bind HeaderRead Any _ _
          (read_header-Ends (suc (length (joined reads))) (joined reads) initial (omega arith)
            initial-HasSizes)
          λ (l, rest) _. Ends-bind Any Any _ _ (answer-Ends l s) λ (v, t) _. tt
