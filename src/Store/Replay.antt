-- ===== src/Store/Replay.antt =====
-- internal/store/segment.go: replay, and that it recovers the index.
use integrations_challenge.Prelude.{
  ℕ, ◌+◌, ◌≡◌, refl, ap, ◌∙◌, Bool, true, false, List, [], ◌∷◌, ◌++◌, Bytes, Option, Result, ok,
  err, ◌>>=◌, length, arith,
}
use integrations_challenge.Store.{
  Error, corrupt, Revision, Head, Line, revision, blank, unreadable, index_revision, index_seq,
}

-- What replay gives: the lines that stay in the file, the index and the highest sequence number.
pub record Replayed (A : Type 0) : Type 0 where
  pub lines : List (Line A)
  pub index : Bytes → Option Head
  pub seq : ℕ

abbrev keep : {A : Type 0} → Line A → Replayed A → Replayed A
keep l r = record r { lines = l ∷ r.lines }

-- replay, from the line at `off`; `torn` tells whether bytes without a newline follow the lines.
unfoldable pub replay :
    {A : Type 0} → Bool → List (Line A) → ℕ → (Bytes → Option Head) → ℕ → Result Error (Replayed A)
replay torn [] off idx seq = ok (record { lines = []; index = idx; seq = seq })
replay torn (blank ∷ ls) off idx seq = replay torn ls (off + 1) idx seq >>= λ r. ok (keep blank r)
replay torn (unreadable ∷ l ∷ ls) off idx seq = err corrupt
replay true (unreadable ∷ []) off idx seq = err corrupt
replay false (unreadable ∷ []) off idx seq = ok (record { lines = []; index = idx; seq = seq })
replay torn (revision rev ∷ ls) off idx seq =
    replay torn ls (off + 1) (index_revision idx rev off) (index_seq rev seq) >>= λ r.
    ok (keep (revision rev) r)

-- No line but revisions and white space.
abbrev pub IsReadable : {A : Type 0} → List (Line A) → Type 0
IsReadable [] = Unit
IsReadable (revision rev ∷ ls) = IsReadable ls
IsReadable (blank ∷ ls) = IsReadable ls
IsReadable (unreadable ∷ ls) = ⊥

module _ {A : Type 0} where
  -- The index and the highest sequence number of lines, the first of which stands at `off`.
  abbrev pub index_of : List (Line A) → ℕ → (Bytes → Option Head) → Bytes → Option Head
  index_of [] off idx = idx
  index_of (revision rev ∷ ls) off idx = index_of ls (off + 1) (index_revision idx rev off)
  index_of (blank ∷ ls) off idx = index_of ls (off + 1) idx
  index_of (unreadable ∷ ls) off idx = index_of ls (off + 1) idx

  abbrev pub seq_of : List (Line A) → ℕ → ℕ
  seq_of [] seq = seq
  seq_of (revision rev ∷ ls) seq = seq_of ls (index_seq rev seq)
  seq_of (blank ∷ ls) seq = seq_of ls seq
  seq_of (unreadable ∷ ls) seq = seq_of ls seq

  pub index-snoc :
      (ls : List (Line A)) (rev : Revision A) (off : ℕ) (idx : Bytes → Option Head)
      → index_of (ls ++ revision rev ∷ []) off idx
        ≡ index_revision (index_of ls off idx) rev (off + length ls)
  index-snoc [] rev off idx = ap (index_revision idx rev) (omega arith)
  index-snoc (revision r ∷ ls) rev off idx =
      index-snoc ls rev (off + 1) (index_revision idx r off)
      ∙ ap (index_revision (index_of ls (off + 1) (index_revision idx r off)) rev) (omega arith)
  index-snoc (blank ∷ ls) rev off idx =
      index-snoc ls rev (off + 1) idx
      ∙ ap (index_revision (index_of ls (off + 1) idx) rev) (omega arith)
  index-snoc (unreadable ∷ ls) rev off idx =
      index-snoc ls rev (off + 1) idx
      ∙ ap (index_revision (index_of ls (off + 1) idx) rev) (omega arith)

  pub seq-snoc :
      (ls : List (Line A)) (rev : Revision A) (seq : ℕ)
      → seq_of (ls ++ revision rev ∷ []) seq ≡ index_seq rev (seq_of ls seq)
  seq-snoc [] rev seq = refl
  seq-snoc (revision r ∷ ls) rev seq = seq-snoc ls rev (index_seq r seq)
  seq-snoc (blank ∷ ls) rev seq = seq-snoc ls rev seq
  seq-snoc (unreadable ∷ ls) rev seq = seq-snoc ls rev seq

  pub IsReadable-snoc :
      (ls : List (Line A)) (rev : Revision A) → IsReadable ls → IsReadable (ls ++ revision rev ∷ [])
  IsReadable-snoc [] rev h = tt
  IsReadable-snoc (revision r ∷ ls) rev h = IsReadable-snoc ls rev h
  IsReadable-snoc (blank ∷ ls) rev h = IsReadable-snoc ls rev h
  IsReadable-snoc (unreadable ∷ ls) rev h = h

  pub replay-readable :
      (torn : Bool) (ls : List (Line A)) (off : ℕ) (idx : Bytes → Option Head) (seq : ℕ)
      → IsReadable ls
      → replay torn ls off idx seq
        ≡ ok (record { lines = ls; index = index_of ls off idx; seq = seq_of ls seq })
  unfolding replay
  replay-readable torn [] off idx seq r = refl
  replay-readable torn (revision rev ∷ ls) off idx seq r =
      ap (λ m. m >>= λ q. ok (keep (revision rev) q))
        (replay-readable torn ls (off + 1) (index_revision idx rev off) (index_seq rev seq) r)
  replay-readable torn (blank ∷ ls) off idx seq r =
      ap (λ m. m >>= λ q. ok (keep blank q)) (replay-readable torn ls (off + 1) idx seq r)
  replay-readable torn (unreadable ∷ ls) off idx seq r = elim r [ ]
