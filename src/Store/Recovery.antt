-- ===== src/Store/Recovery.antt =====
-- internal/store: the index is always what a replay of the segments gives.
use native.Mathlib.Nat.{le_trans}
use mathlib.Core.Path.{subst}
use integrations_challenge.Prelude.{
  ℕ, ◌+◌, ◌≤◌, ◌≡◌, refl, sym, ap, ◌∙◌, Bool, true, false, not, ◌&&◌, List, [], ◌∷◌, ◌++◌, Bytes,
  Option, none, some, Result, ok, err, bytes_eq, if◌then◌else◌, if_elim, Option-cases, inl, inr,
  update, length, arith,
}
use integrations_challenge.Text.{trim_space}
use integrations_challenge.Store.{
  Error, Canonical, Disk, line_written, line_undone, line_left, add_line, bad_payload,
  hash_mismatch, Revision, Outcome, Head, Line, revision, Store, valid_dataset, the_head,
  index_revision, index_seq, open_segment, lines_of,
}
use integrations_challenge.Store.Apply.{
  apply, apply_checked, append_line, next_line, stored_line, finish, is_stale, is_empty,
}
use integrations_challenge.Store.Replay.{
  Replayed, replay, IsReadable, index_of, seq_of, index-snoc, seq-snoc, IsReadable-snoc,
  replay-readable,
}

module _ {A : Type 0} where
  -- A segment and its index fit: a dataset without a segment has no index, and one with a segment
  -- the index of its lines, none of which is numbered above the store's number.
  abbrev pub Fits : Option (List (Line A)) → (Bytes → Option Head) → ℕ → Type 0
  Fits none idx seq = idx ≡ (λ key. none)
  Fits (some ls) idx seq = IsReadable ls × (idx ≡ index_of ls 0 (λ key. none)) × (seq_of ls 0 ≤ seq)

  unfoldable pub IsCoherent : Store A → Type 0
  IsCoherent s = (dataset : Bytes) → Fits (s.segs dataset) (s.index dataset) s.seq

  Fits-if :
      (b : Bool) (x y : Option (List (Line A))) (i j : Bytes → Option Head) (seq : ℕ)
      → (b ≡ true → Fits x i seq)
      → (b ≡ false → Fits y j seq)
      → Fits (if b then x else y) (if b then i else j) seq
  Fits-if true x y i j seq hx hy = hx refl
  Fits-if false x y i j seq hx hy = hy refl

  Fits-later :
      (x : Option (List (Line A))) (i : Bytes → Option Head) {m n : ℕ}
      → m ≤ n
      → Fits x i m
      → Fits x i n
  Fits-later none i h f = f
  Fits-later (some ls) i h f = (f.0, f.1, le_trans f.2 h)

  open_segment-IsCoherent :
      (dataset : Bytes) (s : Store A) → IsCoherent s → IsCoherent (open_segment dataset s)
  unfolding open_segment IsCoherent
  open_segment-IsCoherent dataset s c =
      elim (s.segs dataset)
        as (λ (o : Option (List (Line A))). IsCoherent (elim o [
          | some lines ↦ s
          | none ↦ record s {
            segs = update s.segs dataset (some []);
            index = update s.index dataset (λ key. none);
          }
        ])) [
          | some lines ↦ c
          | none ↦ λ other.
              Fits-if (bytes_eq other dataset) (some []) (s.segs other) (λ key. none)
                (s.index other) s.seq (λ same. (tt, refl, omega arith)) (λ differs. c other)
        ]

  -- A line as it is stored and the line that was indexed have the same key, hash and numbers.
  pub record IsAlike (stored line : Revision A) : Type 0 where
    pub seq : stored.seq ≡ line.seq
    pub key : stored.key ≡ line.key
    pub version : stored.version ≡ line.version
    pub deleted : stored.deleted ≡ line.deleted
    pub content_hash : stored.content_hash ≡ line.content_hash
    pub provenance_only : stored.provenance_only ≡ line.provenance_only

  alike-index_revision :
      (stored line : Revision A) (idx : Bytes → Option Head) (off : ℕ)
      → IsAlike stored line
      → index_revision idx stored off ≡ index_revision idx line off
  unfolding index_revision add_line
  alike-index_revision stored line idx off h =
      rw (h.seq, h.key, h.version, h.deleted, h.content_hash, h.provenance_only) refl

  alike-index_seq :
      (stored line : Revision A) (seq : ℕ)
      → IsAlike stored line
      → index_seq stored seq ≡ index_seq line seq
  alike-index_seq stored line seq h = rw h.seq refl

  append-Fits :
      (x : Option (List (Line A))) (i : Bytes → Option Head) (seq : ℕ) (stored line : Revision A)
      → IsAlike stored line
      → Fits x i seq
      → seq ≤ line.seq
      → Fits
          (some (lines_of x ++ revision stored ∷ []))
          (index_revision i line (length (lines_of x)))
          (index_seq line line.seq)
  append-Fits none i seq stored line alike f h = (
    tt,
    ap (λ (j : Bytes → Option Head). index_revision j line 0) f
        ∙ sym (alike-index_revision stored line (λ key. none) 0 alike),
    let same = alike.seq in ground arith,
  )
  append-Fits (some ls) i seq stored line alike (readable, same, below) h = (
    IsReadable-snoc ls stored readable,
    ap (λ (j : Bytes → Option Head). index_revision j line (length ls)) same
        ∙ ap (index_revision (index_of ls 0 (λ key. none)) line) (omega arith)
        ∙ sym (alike-index_revision stored line (index_of ls 0 (λ key. none)) (0 + length ls) alike)
        ∙ sym (index-snoc ls stored 0 (λ key. none)),
    let last = seq-snoc ls stored 0 in let number = alike.seq in ground arith,
  )

  append_line-IsCoherent :
      (stored line : Revision A) (s : Store A)
      → IsAlike stored line
      → s.seq ≤ line.seq
      → IsCoherent s
      → IsCoherent (append_line stored line s)
  unfolding IsCoherent
  append_line-IsCoherent stored line s alike h c other =
      Fits-if (bytes_eq other line.dataset) _ (s.segs other) _ (s.index other)
        (index_seq line line.seq)
        (λ same.
          append-Fits (s.segs line.dataset) (s.index line.dataset) s.seq stored line alike
            (c line.dataset) h)
        (λ differs. Fits-later (s.segs other) (s.index other) (ground arith) (c other))

  IsCoherent-unclean :
      (s : Store A) (unclean : Bytes → Bool)
      → IsCoherent s
      → IsCoherent (record s { unclean = unclean })
  unfolding IsCoherent
  IsCoherent-unclean s unclean c = c

  finish-IsCoherent :
      (disk : Disk) (dataset : Bytes) (s' : Store A) (done : Outcome) (s : Store A)
      → IsCoherent s'
      → IsCoherent s
      → IsCoherent (finish disk dataset s' done s).0
  finish-IsCoherent line_written dataset s' done s c' c = c'
  finish-IsCoherent line_undone dataset s' done s c' c = c
  finish-IsCoherent line_left dataset s' done s c' c =
      IsCoherent-unclean s (update s.unclean dataset true) c

  -- A hash is a text that CanonicalJSON leaves alone.
  pub record KeepsHashes (canonical : Canonical A) : Type 0 where
    pub kept :
        (payload : A) (hash : Bytes)
        → canonical.content_hash payload ≡ some hash
        → canonical.text hash ≡ hash

  -- A record whose trimmed key is written as CanonicalJSON writes it.
  abbrev pub IsCanonicalKey : Canonical A → Revision A → Type 0
  IsCanonicalKey canonical rec = canonical.text (trim_space rec.key) ≡ trim_space rec.key

  stored_line-IsAlike :
      (canonical : Canonical A) (line : Revision A)
      → canonical.text line.key ≡ line.key
      → canonical.text line.content_hash ≡ line.content_hash
      → IsAlike (stored_line canonical line) line
  unfolding stored_line
  stored_line-IsAlike canonical line key hash = record {
    seq = refl;
    key = key;
    version = refl;
    deleted = refl;
    content_hash = hash;
    provenance_only = refl;
  }

  apply_checked-IsCoherent :
      (canonical : Canonical A) (disk : Disk) (rec : Revision A) (key hash : Bytes) (s : Store A)
      → canonical.text key ≡ key
      → canonical.text hash ≡ hash
      → IsCoherent s
      → IsCoherent (apply_checked canonical disk rec key hash s).0
  unfolding apply_checked
  apply_checked-IsCoherent canonical disk rec key hash s same_key same_hash c =
      let line = next_line rec key hash s in
      let alike = stored_line-IsAlike canonical line same_key same_hash in
      let stored = stored_line canonical line in
      let written = append_line-IsCoherent stored line s alike (omega arith) c in
      if_elim (λ (r : Store A × Result Error Outcome). IsCoherent r.0)
        (is_stale rec.if_version (the_head (s.index rec.dataset key)).version) (λ stale. c)
        (λ fresh. finish-IsCoherent disk rec.dataset _ _ s written c)

  -- A statement about Apply, from its errors and from the write.
  pub apply_rule :
      (canonical : Canonical A) (disk : Disk) (rec : Revision A) (s : Store A)
      (P : Store A × Result Error Outcome → Type 0)
      → ((e : Error) → P (s, err e))
      → ((hash : Bytes)
          → canonical.content_hash rec.payload ≡ some hash
          → P (
              apply_checked canonical disk rec
                (trim_space rec.key)
                hash
                (open_segment rec.dataset s)))
      → P (apply canonical disk rec s)
  unfolding apply
  apply_rule canonical disk rec s P on_error on_write =
      if_elim P s.closed (λ closed. on_error _)
        (λ is_open.
          if_elim P (not (valid_dataset rec.dataset)) (λ bad. on_error _)
            (λ valid.
              if_elim P (is_empty (trim_space rec.key)) (λ empty. on_error _)
                (λ named. elim (Option-cases (canonical.content_hash rec.payload)) [
                  | inl e ↦ rw e (on_error bad_payload)
                  | inr (hash, e) ↦ rw e (
                      if_elim P
                        (not (is_empty rec.content_hash) && not (bytes_eq rec.content_hash hash))
                        (λ other. on_error hash_mismatch) (λ agreed. on_write hash e))
                ])))

  -- Apply keeps the index what a replay of the lines within the segments' sizes gives, on every
  -- branch and whatever the disk does with the line, if CanonicalJSON leaves the record's trimmed key
  -- and the hashes as they are.
  pub apply-IsCoherent :
      (canonical : Canonical A) (disk : Disk) (rec : Revision A) (s : Store A)
      → KeepsHashes canonical
      → IsCanonicalKey canonical rec
      → IsCoherent s
      → IsCoherent (apply canonical disk rec s).0
  unfolding apply
  apply-IsCoherent canonical disk rec s hashes key c =
      apply_rule canonical disk rec s (λ r. IsCoherent r.0) (λ e. c)
        (λ hash h.
          apply_checked-IsCoherent canonical disk rec (trim_space rec.key) hash _ key
            (hashes.kept rec.payload hash h) (open_segment-IsCoherent rec.dataset s c))

  abbrev pub empty_store : Store A
  empty_store = record {
    closed = false;
    seq = 0;
    segs = λ dataset. none;
    index = λ dataset key. none;
    unclean = λ dataset. false;
  }

  -- A history of writes: what the disk did and what was applied.
  unfoldable pub apply_all : Canonical A → List (Disk × Revision A) → Store A → Store A
  apply_all canonical [] s = s
  apply_all canonical ((disk, rec) ∷ es) s = apply_all canonical es (apply canonical disk rec s).0

  abbrev pub AreCanonicalKeys : Canonical A → List (Disk × Revision A) → Type 0
  AreCanonicalKeys canonical [] = Unit
  AreCanonicalKeys canonical ((disk, rec) ∷ es) =
      IsCanonicalKey canonical rec × AreCanonicalKeys canonical es

  apply_all-IsCoherent :
      (canonical : Canonical A) (es : List (Disk × Revision A)) (s : Store A)
      → KeepsHashes canonical
      → AreCanonicalKeys canonical es
      → IsCoherent s
      → IsCoherent (apply_all canonical es s)
  unfolding apply_all
  apply_all-IsCoherent canonical [] s hashes keys c = c
  apply_all-IsCoherent canonical ((disk, rec) ∷ es) s hashes (key, keys) c =
      apply_all-IsCoherent canonical es _ hashes keys
        (apply-IsCoherent canonical disk rec s hashes key c)

  -- After any writes to a new store, failed ones included, of records whose trimmed keys
  -- CanonicalJSON leaves as they are, as it does the hashes, a replay of a segment to which no
  -- failed Truncate left bytes, and whose last write was torn or not, keeps every line that was
  -- reported as written and rebuilds the index that the store held, with no sequence number above
  -- the store's.
  pub replay-recovers :
      (canonical : Canonical A) (es : List (Disk × Revision A)) (torn : Bool) (dataset : Bytes)
      (ls : List (Line A))
      → KeepsHashes canonical
      → AreCanonicalKeys canonical es
      → (apply_all canonical es empty_store).unclean dataset ≡ false
      → let s = apply_all canonical es empty_store in
        s.segs dataset ≡ some ls
        → (r : Replayed A) × (replay torn ls 0 (λ key. none) 0 ≡ ok r)
          × (r.lines ≡ ls)
          × (r.index ≡ s.index dataset)
          × (r.seq ≤ s.seq)
  unfolding IsCoherent
  replay-recovers canonical es torn dataset ls hashes keys clean e =
      let s = apply_all canonical es empty_store in
      let fits =
        subst (λ (o : Option (List (Line A))). Fits o (s.index dataset) s.seq) e
          (apply_all-IsCoherent canonical es empty_store hashes keys (λ other. refl) dataset) in
      (_, replay-readable torn ls 0 (λ key. none) 0 fits.0, refl, sym fits.1, fits.2)
