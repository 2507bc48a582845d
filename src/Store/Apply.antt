-- ===== src/Store/Apply.antt =====
-- internal/store/store.go: Apply, Delete, Get and History.
use integrations_challenge.Prelude.{
  ℕ, zero, suc, ◌+◌, Bool, true, false, not, ◌&&◌, List, [], ◌∷◌, ◌++◌, Bytes, Option, none, some,
  Result, ok, err, ◌>>=◌, bytes_eq, if◌then◌else◌, update, length,
}
use integrations_challenge.Prelude.Int.{ℤ, pos, ◌==ℤ◌}
use integrations_challenge.Text.{trim_space}
use integrations_challenge.Store.{
  Error, closed_store, bad_dataset, empty_key, hash_mismatch, bad_payload, disk_error, corrupt,
  Provenance, Canonical, Disk, line_written, line_undone, line_left, Revision, Outcome, applied,
  unchanged, conflict, Head, Line, revision, blank, unreadable, Store, valid_dataset, the_head,
  index_revision, index_seq, open_segment, lines_of,
}

abbrev pub is_empty : Bytes → Bool
is_empty [] = true
is_empty (c ∷ s) = false

-- `rec.IfVersion != nil && *rec.IfVersion != cur`
abbrev pub is_stale : Option ℤ → ℕ → Bool
is_stale none cur = false
is_stale (some v) cur = not (v ==ℤ pos cur)

-- `head != nil && head.contentHash == hash && head.deleted == rec.Deleted`
abbrev same_flag : Bool → Bool → Bool
same_flag true b = b
same_flag false b = not b

abbrev pub is_unchanged : Option Head → Bytes → Bool → Bool
is_unchanged none hash deleted = false
is_unchanged (some h) hash deleted = bytes_eq h.content_hash hash && same_flag h.deleted deleted

abbrev stored_provenance : (Bytes → Bytes) → Provenance → Provenance
stored_provenance text p = record p {
  batch_id = text p.batch_id;
  channel = text p.channel;
  source_file = text p.source_file;
  source_sha256 = text p.source_sha256;
  profile = text p.profile;
  format = text p.format;
  encoding = text p.encoding;
  source_system = text p.source_system;
  run_id = text p.run_id;
}

module _ {A : Type 0} where
  -- The line that Apply appends.
  abbrev pub next_line : Revision A → Bytes → Bytes → Store A → Revision A
  next_line rec key hash s =
      let head = s.index rec.dataset key in
      let same = is_unchanged head hash rec.deleted in
      record {
        seq = s.seq + 1;
        dataset = rec.dataset;
        key = key;
        version = if same then (the_head head).version else (the_head head).version + 1;
        deleted = rec.deleted;
        content_hash = hash;
        payload = rec.payload;
        provenance = rec.provenance;
        provenance_only = same;
        if_version = none;
      }

  -- indexRevision of a line, and segment.append of it as it is stored.
  abbrev pub append_line : Revision A → Revision A → Store A → Store A
  append_line stored line s =
      let lines = lines_of (s.segs line.dataset) in
      record s {
        segs = update s.segs line.dataset (some (lines ++ revision stored ∷ []));
        index = λ dataset.
            if bytes_eq dataset line.dataset
            then index_revision (s.index line.dataset) line (length lines)
            else s.index dataset;
        seq = index_seq line line.seq;
      }

  -- What decodeRevision reads from the line that encodeRevision makes of a revision. The dataset
  -- is one that ValidDataset accepts, which has only ASCII letters, digits and `_`.
  unfoldable pub stored_line : Canonical A → Revision A → Revision A
  stored_line canonical line = record line {
    key = canonical.text line.key;
    content_hash = canonical.text line.content_hash;
    payload = canonical.payload line.payload;
    provenance = stored_provenance canonical.text line.provenance;
  }

  -- The end of Apply, from the store with the line and the one without it.
  abbrev pub finish : Disk → Bytes → Store A → Outcome → Store A → Store A × Result Error Outcome
  finish line_written dataset s' done s = (s', ok done)
  finish line_undone dataset s' done s = (s, err disk_error)
  finish line_left dataset s' done s =
      (record s { unclean = update s.unclean dataset true }, err disk_error)

  -- Apply on a registered segment, for the trimmed key and the payload's hash. The line can be
  -- encoded, since its payload could be.
  unfoldable pub apply_checked :
      Canonical A → Disk → Revision A → Bytes → Bytes → Store A → Store A × Result Error Outcome
  apply_checked canonical disk rec key hash s =
      let head = s.index rec.dataset key in
      let line = next_line rec key hash s in
      let s' = append_line (stored_line canonical line) line s in
      let h = the_head (s'.index rec.dataset key) in
      let refused : Outcome = record {
        result = conflict;
        dataset = rec.dataset;
        key = key;
        version = (the_head head).version;
        content_hash = (the_head head).content_hash;
        deleted = (the_head head).deleted;
        seq = 0;
      } in
      let done : Outcome = record {
        result = if line.provenance_only then unchanged else applied;
        dataset = rec.dataset;
        key = key;
        version = h.version;
        content_hash = h.content_hash;
        deleted = h.deleted;
        seq = line.seq;
      } in
      if is_stale rec.if_version (the_head head).version
      then (s, ok refused)
      else finish disk rec.dataset s' done s

  -- applyLocked
  unfoldable pub apply : Canonical A → Disk → Revision A → Store A → Store A × Result Error Outcome
  apply canonical disk rec s =
      let key = trim_space rec.key in
      if s.closed
      then (s, err closed_store)
      else if not (valid_dataset rec.dataset)
      then (s, err bad_dataset)
      else if is_empty key
      then (s, err empty_key)
      else elim (canonical.content_hash rec.payload) [
        | none ↦ (s, err bad_payload)
        | some hash ↦
            if not (is_empty rec.content_hash) && not (bytes_eq rec.content_hash hash)
            then (s, err hash_mismatch)
            else apply_checked canonical disk rec key hash (open_segment rec.dataset s)
      ]

  -- lineReader.at and decodeRevision.
  unfoldable pub read_at : ℕ → List (Line A) → Result Error (Revision A)
  read_at off [] = err corrupt
  read_at (suc off) (l ∷ ls) = read_at off ls
  read_at zero (revision r ∷ ls) = ok r
  read_at zero (blank ∷ ls) = err corrupt
  read_at zero (unreadable ∷ ls) = err corrupt

  -- getLocked
  unfoldable pub get : Bytes → Bytes → Store A → Result Error (Option (Revision A))
  unfolding read_at
  get dataset key s = elim (s.index dataset (trim_space key)) [
    | none ↦ ok none
    | some h ↦
        if h.deleted
        then ok none
        else read_at h.current (lines_of (s.segs dataset)) >>= λ r. ok (some r)
  ]

  unfoldable pub read_all : List ℕ → List (Line A) → Result Error (List (Revision A))
  unfolding read_at
  read_all [] lines = ok []
  read_all (off ∷ offs) lines = read_at off lines >>= λ r. read_all offs lines >>= λ rs. ok (r ∷ rs)

  -- History
  unfoldable pub history : Bytes → Bytes → Store A → Result Error (List (Revision A))
  unfolding read_all
  history dataset key s =
      if s.closed then err closed_store else elim (s.index dataset (trim_space key)) [
        | none ↦ ok []
        | some h ↦ read_all h.offsets (lines_of (s.segs dataset))
      ]
