-- ===== src/Store/Tests.antt =====
-- A store at concrete writes, and the theorems about it applied there.
use mathlib.Core.Path.{subst}
use integrations_challenge.Prelude.{
  ℕ, ◌≡◌, if_elim, if◌then◌else◌, ◌==◌, some-inj, ◌&&◌, ◌≤◌, refl, Bool, true, false, List, [], ◌∷◌,
  Bytes, codes, Option, some, none, ok,
}
use integrations_challenge.Text.{trim_space, trim_left, reversed}
use integrations_challenge.Store.{
  Canonical, Disk, Head, line_written, line_undone, Provenance, Revision, Store, valid_dataset,
  open_segment, index_revision, add_line, lines_of,
}
use integrations_challenge.Store.Apply.{apply, apply_checked, stored_line, history}
use integrations_challenge.Store.Replay.{Replayed, replay, index_of}
use integrations_challenge.Store.Recovery.{
  KeepsHashes, AreCanonicalKeys, IsCoherent, empty_store, apply_all, apply-IsCoherent,
  replay-recovers,
}
use integrations_challenge.Store.History.{revisions_of, history-revisions_of}

abbrev nowhere : Provenance
nowhere = record {
  batch_id = [];
  channel = codes "rest";
  source_file = [];
  source_line = none;
  chunk_ordinal = none;
  record_ordinal = none;
  source_sha256 = [];
  profile = [];
  format = [];
  encoding = [];
  source_system = [];
  run_id = [];
  received_scan = none;
  request_seq = none;
}

abbrev delivery : Bytes → ℕ → Revision ℕ
delivery key payload = record {
  seq = 0;
  dataset = codes "supplier";
  key = key;
  version = 0;
  deleted = false;
  content_hash = [];
  payload = payload;
  provenance = nowhere;
  provenance_only = false;
  if_version = none;
}

abbrev hash_of : ℕ → Bytes
hash_of n = if n == 7 then codes "h7" else codes "h8"

-- A stand-in for CanonicalJSON, which only trims the texts.
abbrev canonical : Canonical ℕ
canonical = record { text = trim_space; payload = λ n. n; content_hash = λ n. some (hash_of n) }

hashes : KeepsHashes canonical
unfolding trim_space trim_left reversed
hashes = record {
  kept = λ n h e.
      subst (λ (x : Bytes). trim_space x ≡ x) (some-inj e)
        (if_elim (λ (x : Bytes). trim_space x ≡ x) (n == 7) (λ same. refl) (λ other. refl));
}

-- A record, another one that the disk loses, the first one again, and a change of it.
abbrev writes : List (Disk × Revision ℕ)
writes =
    (line_written, delivery (codes "A") 7)
    ∷ (line_undone, delivery (codes "B") 7)
    ∷ (line_written, delivery (codes "A ") 7)
    ∷ (line_written, delivery (codes "A") 8)
    ∷ []

abbrev written : Store ℕ
written = apply_all canonical writes empty_store

keys : AreCanonicalKeys canonical writes
unfolding trim_space trim_left reversed
keys = (refl, (refl, (refl, (refl, tt))))

empty-IsCoherent : IsCoherent (empty_store {A = ℕ})
unfolding IsCoherent
empty-IsCoherent dataset = refl

apply-IsCoherent_example :
    IsCoherent (apply canonical line_written (delivery (codes "A") 7) empty_store).0
apply-IsCoherent_example =
    apply-IsCoherent canonical line_written (delivery (codes "A") 7) empty_store hashes (keys.0)
      empty-IsCoherent

clean : written.unclean (codes "supplier") ≡ false
unfolding apply_all apply apply_checked valid_dataset open_segment index_revision add_line
    trim_space trim_left reversed
clean = refl

-- A stand-in that composes the letter e and a combining acute accent.
abbrev composed : Bytes → Bytes
composed (c ∷ d ∷ e ∷ s) =
    if (c == 101) && (d == 204) && (e == 129) then 195 ∷ 169 ∷ s else c ∷ d ∷ e ∷ s
composed s = s

abbrev decomposed : Bytes
decomposed = 101 ∷ 204 ∷ 129 ∷ []

abbrev accented : Store ℕ
accented =
    (apply (record canonical { text = composed }) line_written (delivery decomposed 7)
      empty_store).0

abbrev is_known : Option Head → Bool
is_known none = false
is_known (some h) = true

-- The record of a key that is not in NFC is known under it, and after a replay under another key.
forgotten :
    (is_known (accented.index (codes "supplier") decomposed) ≡ true)
    × (is_known (index_of (lines_of (accented.segs (codes "supplier"))) 0 (λ key. none) decomposed)
        ≡ false)
    × (is_known
          (index_of (lines_of (accented.segs (codes "supplier"))) 0 (λ key. none) (195 ∷ 169 ∷ []))
        ≡ true)
unfolding apply apply_checked stored_line valid_dataset open_segment index_revision add_line
    trim_space trim_left reversed
forgotten = (refl, refl, refl)

has_lines : written.segs (codes "supplier") ≡ some (lines_of (written.segs (codes "supplier")))
unfolding apply_all apply apply_checked valid_dataset open_segment index_revision add_line
    trim_space trim_left reversed
has_lines = refl

replay-recovers_example :
    (r : Replayed ℕ) × (replay true (lines_of (written.segs (codes "supplier"))) 0 (λ key. none) 0
      ≡ ok r)
    × (r.lines ≡ lines_of (written.segs (codes "supplier")))
    × (r.index ≡ written.index (codes "supplier"))
    × (r.seq ≤ written.seq)
replay-recovers_example =
    replay-recovers canonical writes true (codes "supplier")
      (lines_of (written.segs (codes "supplier"))) hashes keys clean has_lines

is_open : (apply canonical line_written (delivery (codes "A") 7) empty_store).0.closed ≡ false
unfolding apply apply_checked valid_dataset open_segment trim_space trim_left reversed
is_open = refl

history-revisions_of_example :
    let s = (apply canonical line_written (delivery (codes "A") 7) empty_store).0 in
    history (codes "supplier") (codes "A") s
    ≡ ok (revisions_of (trim_space (codes "A")) (lines_of (s.segs (codes "supplier"))))
history-revisions_of_example =
    history-revisions_of (codes "supplier") (codes "A")
      (apply canonical line_written (delivery (codes "A") 7) empty_store).0 is_open
      apply-IsCoherent_example
