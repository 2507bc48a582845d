-- ===== src/Store/History.antt =====
-- internal/store/store.go: History gives every revision of a record.
use mathlib.Core.Path.{subst}
use integrations_challenge.Prelude.{
  ℕ, ◌+◌, ◌≡◌, refl, sym, ap, ◌∙◌, true, false, List, [], ◌∷◌, ◌++◌, append_assoc, append-nil,
  Bytes, Option, none, some, Option-cases, Bool-cases, ok, inl, inr, bytes_eq, bytes_eq_sound,
  if◌then◌else◌, length, length-append, arith,
}
use integrations_challenge.Text.{trim_space}
use integrations_challenge.Store.{
  Revision, Head, Line, revision, blank, unreadable, Store, the_head, index_revision, add_line,
  lines_of,
}
use integrations_challenge.Store.Apply.{history, read_at, read_all}
use integrations_challenge.Store.Replay.{index_of}
use integrations_challenge.Store.Recovery.{IsCoherent, Fits}

module _ {A : Type 0} where
  -- The revisions of one record among lines, in their order.
  unfoldable pub revisions_of : Bytes → List (Line A) → List (Revision A)
  revisions_of key [] = []
  revisions_of key (revision r ∷ ls) =
      let rest = revisions_of key ls in if bytes_eq key r.key then r ∷ rest else rest
  revisions_of key (blank ∷ ls) = revisions_of key ls
  revisions_of key (unreadable ∷ ls) = revisions_of key ls

  read_here :
      (pre : List (Line A)) (r : Revision A) (ls : List (Line A))
      → read_at (length pre) (pre ++ revision r ∷ ls) ≡ ok r
  unfolding read_at
  read_here [] r ls = refl
  read_here (l ∷ pre) r ls = read_here pre r ls

  -- Reading the offsets gives these revisions.
  Reads : List (Line A) → List ℕ → List (Revision A) → Type 0
  Reads ls [] [] = Unit
  Reads ls [] (r ∷ rs) = ⊥
  Reads ls (off ∷ offs) [] = ⊥
  Reads ls (off ∷ offs) (r ∷ rs) = (read_at off ls ≡ ok r) × Reads ls offs rs

  Reads-snoc :
      (ls : List (Line A)) (offs : List ℕ) (off : ℕ) (rs : List (Revision A)) (r : Revision A)
      → Reads ls offs rs
      → read_at off ls ≡ ok r
      → Reads ls (offs ++ off ∷ []) (rs ++ r ∷ [])
  unfolding Reads
  Reads-snoc ls [] off [] r h here = (here, tt)
  Reads-snoc ls [] off (q ∷ rs) r h here = elim h [ ]
  Reads-snoc ls (o ∷ offs) off [] r h here = elim h [ ]
  Reads-snoc ls (o ∷ offs) off (q ∷ rs) r (first, h) here =
      (first, Reads-snoc ls offs off rs r h here)

  read_all_lem :
      (ls : List (Line A)) (offs : List ℕ) (rs : List (Revision A))
      → Reads ls offs rs
      → read_all offs ls ≡ ok rs
  unfolding Reads read_all
  read_all_lem ls [] [] h = refl
  read_all_lem ls [] (r ∷ rs) h = elim h [ ]
  read_all_lem ls (off ∷ offs) [] h = elim h [ ]
  read_all_lem ls (off ∷ offs) (r ∷ rs) (first, h) = rw (first, read_all_lem ls offs rs h) refl

  offsets-add_line :
      (h : Head) (r : Revision A) (off : ℕ) → (add_line h r off).offsets ≡ h.offsets ++ off ∷ []
  unfolding add_line
  offsets-add_line h r off = ground arith

  head-index_revision :
      (idx : Bytes → Option Head) (r : Revision A) (off : ℕ) (key : Bytes)
      → bytes_eq key r.key ≡ true
      → (the_head (index_revision idx r off key)).offsets ≡ (the_head (idx key)).offsets ++ off ∷ []
  unfolding index_revision
  head-index_revision idx r off key same = rw same (
      offsets-add_line (the_head (idx r.key)) r off
      ∙ ap (λ (k : Bytes). (the_head (idx k)).offsets ++ off ∷ [])
          (sym (bytes_eq_sound key r.key same)))

  other-index_revision :
      (idx : Bytes → Option Head) (r : Revision A) (off : ℕ) (key : Bytes)
      → bytes_eq key r.key ≡ false
      → index_revision idx r off key ≡ idx key
  unfolding index_revision
  other-index_revision idx r off key other = rw other refl

  module _ (key : Bytes) (total : List (Line A)) where
    read_index :
        (pre ls : List (Line A)) (off : ℕ) (idx : Bytes → Option Head) (rs : List (Revision A))
        → total ≡ pre ++ ls
        → off ≡ length pre
        → Reads total (the_head (idx key)).offsets rs
        → Reads total (the_head (index_of ls off idx key)).offsets (rs ++ revisions_of key ls)
    unfolding revisions_of
    read_index pre [] off idx rs e n h =
        subst (Reads total (the_head (idx key)).offsets) (sym (append-nil rs)) h
    read_index pre (revision r ∷ ls) off idx rs e n h =
        let e' : total ≡ (pre ++ revision r ∷ []) ++ ls =
          e ∙ sym (append_assoc pre (revision r ∷ []) ls) in
        let n' : off + 1 ≡ length (pre ++ revision r ∷ []) =
          omega (arith, n, length-append pre (revision r ∷ [])) in
        let next = read_index (pre ++ revision r ∷ []) ls (off + 1) (index_revision idx r off) in
        let here : read_at off total ≡ ok r = rw (e, n) (read_here pre r ls) in
        elim (Bool-cases (bytes_eq key r.key)) [
          | inl same ↦
              let longer =
                subst (λ (offs : List ℕ). Reads total offs (rs ++ r ∷ []))
                  (sym (head-index_revision idx r off key same))
                  (Reads-snoc total (the_head (idx key)).offsets off rs r h here) in
              rw same (
                subst (Reads total _) (append_assoc rs (r ∷ []) (revisions_of key ls))
                  (next (rs ++ r ∷ []) e' n' longer))
          | inr other ↦
              let kept =
                subst (λ (o : Option Head). Reads total (the_head o).offsets rs)
                  (sym (other-index_revision idx r off key other)) h in
              rw other (next rs e' n' kept)
        ]
    read_index pre (blank ∷ ls) off idx rs e n h =
        read_index (pre ++ blank ∷ []) ls (off + 1) idx rs
          (e ∙ sym (append_assoc pre (blank ∷ []) ls))
          (omega (arith, n, length-append pre (blank ∷ []))) h
    read_index pre (unreadable ∷ ls) off idx rs e n h =
        read_index (pre ++ unreadable ∷ []) ls (off + 1) idx rs
          (e ∙ sym (append_assoc pre (unreadable ∷ []) ls))
          (omega (arith, n, length-append pre (unreadable ∷ []))) h

  Fits-Reads :
      (key : Bytes) (o : Option (List (Line A))) (idx : Bytes → Option Head) (seq : ℕ)
      → Fits o idx seq
      → Reads (lines_of o) (the_head (idx key)).offsets (revisions_of key (lines_of o))
  unfolding Reads revisions_of
  Fits-Reads key none idx seq f =
      subst (λ (i : Bytes → Option Head). Reads [] (the_head (i key)).offsets []) (sym f) tt
  Fits-Reads key (some ls) idx seq f =
      subst (λ (i : Bytes → Option Head). Reads ls (the_head (i key)).offsets (revisions_of key ls))
        (sym f.1) (read_index key ls [] ls 0 (λ k. none) [] refl refl tt)

  history_reads :
      (dataset key : Bytes) (s : Store A)
      → s.closed ≡ false
      → history dataset key s
        ≡ read_all (the_head (s.index dataset (trim_space key))).offsets (lines_of (s.segs dataset))
  unfolding history read_all
  history_reads dataset key s is_open = elim (Option-cases (s.index dataset (trim_space key))) [
    | inl e ↦ rw (is_open, e) refl
    | inr (h, e) ↦ rw (is_open, e) refl
  ]

  -- In an open store whose index is what a replay gives, History of a record is the list of all
  -- the revisions of its segment with its key, deletions and deliveries of the same content
  -- included, in the order in which they were appended.
  pub history-revisions_of :
      (dataset key : Bytes) (s : Store A)
      → s.closed ≡ false
      → IsCoherent s
      → history dataset key s ≡ ok (revisions_of (trim_space key) (lines_of (s.segs dataset)))
  unfolding IsCoherent
  history-revisions_of dataset key s is_open c =
      history_reads dataset key s is_open
      ∙ read_all_lem (lines_of (s.segs dataset)) _ _
          (Fits-Reads (trim_space key) (s.segs dataset) (s.index dataset) s.seq (c dataset))
