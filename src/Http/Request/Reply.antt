-- ===== src/Http/Request/Reply.antt =====
-- The answers of httpd over a connection on which no call of send fails.
use linux_unix_development.Common.{
  ℕ, suc, ◌+◌, ◌≡◌, ◌⊎◌, refl, ap, ◌∙◌, sym, inl, inr, true, ◌||◌, Option, none, some, List, [],
  ◌∷◌, ◌++◌, append_assoc, length, length-append, drop, take-length, ok, ◌>>=◌, arith, lt→ltb,
}
use linux_unix_development.Common.Bytes.{codes, crlf, c_string, c_string-terminated, NoNul, str_eq}
use linux_unix_development.Common.Strings.{zeros, length-zeros}
use linux_unix_development.System.Writer.{Writer, IsWriter, IsReliable, Delivered-reliable}
use linux_unix_development.Http.Send.{send_block}
use linux_unix_development.Http.Send.Delivery.{send_block-Delivered}
use linux_unix_development.Http.Header.{Calendar, say}
use linux_unix_development.Http.Header.Bytes.{
  join, header_lines, IsCalendar, Sends, say-Sends, Sends-bind, send_http_header-Sends,
}
use linux_unix_development.Http.Request.{
  Verdict, end, Locals, FileData, error404, deliver, not_found, found, respond, serve, answer,
}
use linux_unix_development.Http.Request.Target.{HasTarget, tokens-HasTarget}

-- The bytes of an answer: the header, the file or the error page with its NUL, and an empty line.
pub reply_bytes : Calendar → ℕ → Option FileData → List ℕ
reply_bytes cal now (some f) =
    join (header_lines cal now 200 (codes "OK") (length f.content) (some f.mtime))
    ++ (f.content ++ (crlf ++ crlf))
reply_bytes cal now none =
    join (header_lines cal now 404 (codes "FILE NOT FOUND.") (length error404 + 1) none)
    ++ ((error404 ++ (0 ∷ [])) ++ (crlf ++ crlf))

-- A file keeps the verdict of the header, an error page ends the connection.
unfoldable pub reply_verdict : Verdict → Option FileData → Verdict
reply_verdict v (some f) = v
reply_verdict v none = end

is_get :
    {x : List ℕ}
    → (x ≡ codes "GET") ⊎ (x ≡ codes "get")
    → (str_eq x (codes "GET") || str_eq x (codes "get")) ≡ true
is_get (inl e) = rw e
is_get (inr e) = rw e

module _ {w : Writer} {sent : w.Conn → List ℕ} (ok_w : IsWriter w sent) (rel : IsReliable w) where
  -- SendBlock and the empty line behind it.
  block-Sends :
      (s : w.Conn) (x : List ℕ) (size : ℕ)
      → size ≡ length x
      → Sends ok_w rel s
          (x ++ (crlf ++ crlf))
          (send_block w s x size >>= λ r. say w (crlf ++ crlf) r.1)
  block-Sends s x size e =
      let (t, eq, d) =
        Delivered-reliable w sent rel (send_block-Delivered ok_w s x size (omega arith)) in
      let (u, eq', d') = say-Sends ok_w rel t (crlf ++ crlf) (omega arith) in
      (
        u,
        rw eq eq',
        d'
            ∙ ap (λ y. y ++ (crlf ++ crlf))
                (d ∙ ap (λ y. sent s ++ y) (take-length size x (omega arith)))
            ∙ append_assoc (sent s) x (crlf ++ crlf),
      )

  module _ (cal : Calendar) (c : IsCalendar cal) (files : List ℕ → Option FileData) (now : ℕ) where
    deliver-Sends :
        (code : ℕ) (phase : List ℕ) (pftime : Option ℕ) (body : List ℕ) (size : ℕ) (s : w.Conn)
        → size ≡ length body
        → NoNul phase
        → Sends ok_w rel s
            (join (header_lines cal now code phase size pftime) ++ (body ++ (crlf ++ crlf)))
            (deliver w cal files now code phase pftime body size s)
    unfolding deliver
    deliver-Sends code phase pftime body size s e h =
        Sends-bind ok_w rel s _ _ _ _
          (send_http_header-Sends ok_w rel cal now code phase size pftime s c h)
          λ t. block-Sends t body size e

    reply-Sends :
        (v : Verdict) (s : w.Conn) (o : Option FileData)
        → (t : w.Conn) × (respond w cal files now v o s ≡ ok (reply_verdict v o, t))
          × (sent t ≡ sent s ++ reply_bytes cal now o)
    unfolding respond not_found found reply_bytes reply_verdict
    reply-Sends v s (some f) =
        let (t, e, d) =
          deliver-Sends 200 (codes "OK") (some f.mtime) f.content (length f.content) s refl
            (omega arith) in
        (t, rw e, d)
    reply-Sends v s none =
        let (t, e, d) =
          deliver-Sends 404 (codes "FILE NOT FOUND.") none (error404 ++ (0 ∷ []))
            (length error404 + 1) s (sym (length-append error404 (0 ∷ []))) (omega arith) in
        (t, rw e, d)

    -- If no call of send fails and the time lines hold no NUL: a request with method GET or get, whose
    -- request line has a first and a second word shorter than 511 bytes, of which the second, the target
    -- `u`, has a component between slashes, the first of them shorter than 255 bytes (so that the target
    -- "/" is left out), is answered with the header, the content of the file `.u` and an empty line, and
    -- with the verdict of the header, where that file can be opened; otherwise with the 404 header, the
    -- error page and an empty line, and with the verdict to end the connection.
    pub answer-get :
        (l : Locals) (u : List ℕ) (s : w.Conn)
        → (c_string l.method ≡ codes "GET") ⊎ (c_string l.method ≡ codes "get")
        → HasTarget l.headline u
        → (t : w.Conn) × (answer w cal files now l s
            ≡ ok (reply_verdict l.retval (files (b'.' ∷ u)), t))
          × (sent t ≡ sent s ++ reply_bytes cal now (files (b'.' ∷ u)))
    unfolding answer serve
    answer-get l u s m h =
        let (uri, dir, eq, eq', ct, small, text) = tokens-HasTarget h in
        let fits =
          lt→ltb (length (b'.' ∷ u)) (length (zeros 512)) (omega (arith, length-zeros 512)) in
        let name =
          c_string-terminated (b'.' ∷ u) (drop (suc (length (b'.' ∷ u))) (zeros 512))
            (omega arith, text) in
        rw (is_get m, eq, eq', ct, fits, name) (reply-Sends l.retval s (files (b'.' ∷ u)))
