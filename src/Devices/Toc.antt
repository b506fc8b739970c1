-- ===== src/Devices/Toc.antt =====
-- The list of contents.
use linux_unix_development.Common.{
  ℕ, zero, suc, ◌+◌, ◌-◌, ◌≤◌, ◌<◌, ◌≡◌, ap, ◌∙◌, sym, some, List, [], ◌∷◌, ◌++◌, append-nil,
  append_assoc, ok, arith,
}
use linux_unix_development.Devices.{
  Entry, Drive, Line, tracks, row, State, say, read_entry, row_of, content_loop, content_cdrom,
}

-- The rows of `n` tracks from `track` on.
abbrev pub rows : (d : Drive) → (ℕ → Entry) → (n track : ℕ) → List (Line d)
rows d toc zero track = []
rows d toc (suc n) track = row (row_of d track (toc track)) ∷ rows d toc n (track + 1)

content_loop-rows :
    (d : Drive) (toc : ℕ → Entry) (n track : ℕ) (s : State d)
    → ((t : ℕ) → track ≤ t → t < track + n → d.entry s.dev t ≡ some (toc t))
    → content_loop d n track s ≡ ok (record s { out = s.out ++ rows d toc n track })
unfolding content_loop read_entry say
content_loop-rows d toc zero track s h =
    ap (λ l. ok (record s { out = l })) (sym (append-nil s.out))
content_loop-rows d toc (suc n) track s h =
    let first = h track (omega arith) (omega arith) in
    simp first (
      content_loop-rows d toc n (track + 1)
        (record s { out = s.out ++ (row (row_of d track (toc track)) ∷ []) })
        (λ t a b. h t (omega arith) (omega arith))
      ∙ ap (λ l. ok (record s { out = l }))
          (append_assoc s.out (row (row_of d track (toc track)) ∷ []) (rows d toc n (track + 1))))

-- If the drive gives the first and the last track and the entries of all tracks between them,
-- content_cdrom prints the number of the last track and one row for each of them, in order.
pub content_cdrom-rows :
    (d : Drive) (toc : ℕ → Entry) (trk0 trk1 : ℕ) (s : State d)
    → d.header s.dev ≡ some (trk0, trk1)
    → trk0 ≤ trk1
    → ((t : ℕ) → trk0 ≤ t → t ≤ trk1 → d.entry s.dev t ≡ some (toc t))
    → content_cdrom d s
      ≡ ok (record s { out = (s.out ++ (tracks trk1 ∷ [])) ++ rows d toc (trk1 + 1 - trk0) trk0 })
unfolding content_cdrom say
content_cdrom-rows d toc trk0 trk1 s h l e = simp h (
    content_loop-rows d toc (trk1 + 1 - trk0) trk0 (record s { out = s.out ++ (tracks trk1 ∷ []) })
      (λ t a b. e t a (omega arith)))
