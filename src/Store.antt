-- ===== src/Store.antt =====
-- internal/store/revision.go, store.go and segment.go: the append-only revision store.
-- A segment is the list of its lines up to its size, and the offset of a line is its place in that
-- list. A line of a revision is what decodeRevision reads from it: CanonicalJSON, which writes it,
-- trims every text, brings it to NFC and repairs its UTF-8, and is a parameter (Canonical), while
-- the index takes the revision as Apply made it. The payloads that the store reads back itself,
-- proposals and exceptions, are values of the parameter type A. Sequence numbers, versions and
-- offsets stay below 2^63.
pub mod Apply
pub mod Replay
pub mod Recovery
pub mod History
mod Tests
use integrations_challenge.Prelude.{
  ℕ, zero, suc, ◌+◌, Bool, true, false, not, ◌&&◌, ◌||◌, List, [], ◌∷◌, ◌++◌, Bytes, Option, none,
  some, Result, ok, err, bytes_eq, ltb, leb, ◌==◌, if◌then◌else◌, update, length,
}
use integrations_challenge.Prelude.Int.{ℤ}
use integrations_challenge.Text.{trim_space}

pub data Error : Type 0 where
  closed_store bad_dataset empty_key hash_mismatch bad_payload not_found corrupt unknown_ack
        disk_error :
      Error

pub record Provenance : Type 0 where
  pub batch_id : Bytes
  pub channel : Bytes
  pub source_file : Bytes
  pub source_line : Option ℤ
  pub chunk_ordinal : Option ℤ
  pub record_ordinal : Option ℤ
  pub source_sha256 : Bytes
  pub profile : Bytes
  pub format : Bytes
  pub encoding : Bytes
  pub source_system : Bytes
  pub run_id : Bytes
  pub received_scan : Option ℤ
  pub request_seq : Option ℤ

pub record Revision (A : Type 0) : Type 0 where
  pub seq : ℕ
  pub dataset : Bytes
  pub key : Bytes
  pub version : ℕ
  pub deleted : Bool
  pub content_hash : Bytes
  pub payload : A
  pub provenance : Provenance
  pub provenance_only : Bool
  pub if_version : Option ℤ

pub data OutcomeKind : Type 0 where
  applied unchanged conflict : OutcomeKind

pub record Outcome : Type 0 where
  pub result : OutcomeKind
  pub dataset : Bytes
  pub key : Bytes
  pub version : ℕ
  pub content_hash : Bytes
  pub deleted : Bool
  pub seq : ℕ

-- recordHead
pub record Head : Type 0 where
  pub version : ℕ
  pub content_hash : Bytes
  pub deleted : Bool
  pub seq : ℕ
  pub current : ℕ
  pub offsets : List ℕ

-- What internal/model does to a revision that is written and read back: to a text, to a payload,
-- and the hash of a payload, `none` where CanonicalJSON fails.
pub record Canonical (A : Type 0) : Type 0 where
  pub text : Bytes → Bytes
  pub payload : A → A
  pub content_hash : A → Option Bytes

-- A line of a segment file: a revision, white space, or bytes that no revision is read from.
pub data Line (A : Type 0) : Type 0 where
  revision : Revision A → Line A
  blank unreadable : Line A

-- What the disk does with a line: it writes and syncs it; it fails, and nothing of the line is left
-- behind the segment's size; or it fails, and so does the Truncate that should remove the rest.
pub data Disk : Type 0 where
  line_written line_undone line_left : Disk

-- A dataset has a segment exactly where `segs` has one. `unclean` tells where a failed Truncate may
-- have left bytes behind the segment's size, which only the replay of the whole file would read.
pub record Store (A : Type 0) : Type 0 where
  pub closed : Bool
  pub seq : ℕ
  pub segs : Bytes → Option (List (Line A))
  pub index : Bytes → Bytes → Option Head
  pub unclean : Bytes → Bool

-- ValidDataset
abbrev is_lower : ℕ → Bool
is_lower c = leb 97 c && leb c 122

abbrev is_tail : Bytes → Bool
is_tail [] = true
is_tail (c ∷ s) = (is_lower c || leb 48 c && leb c 57 || (c == 95)) && is_tail s

unfoldable pub valid_dataset : Bytes → Bool
valid_dataset [] = false
valid_dataset (c ∷ s) = leb (length (c ∷ s)) 64 && is_lower c && is_tail s

abbrev no_head : Head
no_head = record {
  version = 0;
  content_hash = [];
  deleted = false;
  seq = 0;
  current = 0;
  offsets = [];
}

abbrev pub the_head : Option Head → Head
the_head none = no_head
the_head (some h) = h

-- A head after one more line of its key.
unfoldable pub add_line : {A : Type 0} → Head → Revision A → ℕ → Head
add_line h rev off =
    let h' = record h { offsets = h.offsets ++ off ∷ [] } in
    if rev.provenance_only then h' else record h' {
      version = rev.version;
      content_hash = rev.content_hash;
      deleted = rev.deleted;
      seq = rev.seq;
      current = off;
    }

-- indexRevision, without its last statement: see index_seq.
unfoldable pub index_revision :
    {A : Type 0} → (Bytes → Option Head) → Revision A → ℕ → Bytes → Option Head
index_revision idx rev off = update idx rev.key (some (add_line (the_head (idx rev.key)) rev off))

-- `if rev.Seq > s.seq { s.seq = rev.Seq }`
abbrev pub index_seq : {A : Type 0} → Revision A → ℕ → ℕ
index_seq rev seq = if ltb seq rev.seq then rev.seq else seq

-- openSegment on a dataset that is not registered, and so has no file: an empty segment.
unfoldable pub open_segment : {A : Type 0} → Bytes → Store A → Store A
open_segment dataset s = elim (s.segs dataset) [
  | some lines ↦ s
  | none ↦ record s {
    segs = update s.segs dataset (some []);
    index = update s.index dataset (λ key. none);
  }
]

abbrev pub lines_of : {A : Type 0} → Option (List (Line A)) → List (Line A)
lines_of none = []
lines_of (some lines) = lines
