-- ===== src/Proposals/Tests.antt =====
-- Acks of one proposal, and the theorems about them applied there.
use integrations_challenge.Store.{disk_error}
use integrations_challenge.Prelude.{
  List, ap, ◌==◌, bytes_eq, if◌then◌else◌, Bool-cases, ◌≡◌, refl, inl, inr, false, [], ◌∷◌, Bytes,
  codes, some, none,
}
use integrations_challenge.Prelude.Int.{pos}
use integrations_challenge.Text.{trim_space, trim_left, reversed, sort_strings, insert_sorted}
use integrations_challenge.Proposals.{
  Proposal, ProposalAck, ProposalContent, pending, posted, failed, collect, normalize_warnings,
}
use integrations_challenge.Proposals.Ack.{
  canonical_ack, canonical_acks, Proposals, Service, served, write_fails, IsCanonical, IsId,
  ack_all,
}
use integrations_challenge.Proposals.Closing.{Closed}
use integrations_challenge.Proposals.Acks.{posted-Closed}

abbrev no_hash : ProposalContent → Bytes
no_hash c = []

abbrev ack_of : Bytes → Bytes → ProposalAck
ack_of status doc = record {
  status = status;
  external_document_number = doc;
  external_revision = pos 1;
  external_fiscal_year = pos 2026;
  external_posting_date = codes "2026-03-02";
  idempotency_key = codes "k";
  run_id = codes "r1";
  posted_at = [];
  attempts = pos 1;
  http_status = pos 201;
  idempotency_replay = false;
  error = [];
  reason = [];
}

abbrev fresh : Proposal
fresh = record {
  proposal_id = codes "P1";
  invoice_key = codes "S1";
  invoice_version = pos 1;
  proposal_content_hash = [];
  created_in_run = codes "r1";
  created_seq = pos 1;
  status = pending;
  matched_po = [];
  matched_cost_center = [];
  fx_rate_used = record { unscaled = pos 0; scale = 0 };
  fx_rate_factor = pos 0;
  amount = record { amount_minor = pos 100; currency = codes "CHF"; scale = 2 };
  source_amount = record { amount_minor = pos 100; currency = codes "CHF"; scale = 2 };
  superseded_by = [];
  attempts = 0;
  warnings = [];
  ack = none;
  ack_conflicts = [];
}

abbrev first_doc : ProposalAck
first_doc = ack_of posted (codes "AP-1")

abbrev second_doc : ProposalAck
second_doc = ack_of posted (codes "AP-2")

abbrev transport : ProposalAck
transport = ack_of failed []

-- A stand-in for the canonical form, which drops a space at the head.
abbrev spaces_dropped : Bytes → Bytes
spaces_dropped [] = []
spaces_dropped (c ∷ s) = let rest = spaces_dropped s in if c == 32 then rest else c ∷ rest

dropped_twice : (s : Bytes) → spaces_dropped (spaces_dropped s) ≡ spaces_dropped s
dropped_twice [] = refl
dropped_twice (c ∷ s) =
    let ih = dropped_twice s in
    elim (Bool-cases (c == 32)) [
      | inl space ↦ rw space ih
      | inr other ↦ rw (other, other) (ap (λ (t : Bytes). c ∷ t) ih)
    ]

canonical : IsCanonical spaces_dropped
canonical = record {
  twice = dropped_twice;
  keeps_posted = refl;
  keeps_acknowledged = refl;
  keeps_investigation = refl;
}

is_id : IsId spaces_dropped (codes "P1")
unfolding trim_space trim_left reversed
is_id = record { trimmed = refl; canonical = refl; filled = refl }

abbrev one_proposal : Proposals
one_proposal id = if bytes_eq id (codes "P1") then some fresh else none

-- The first document with a space behind its number, another one, one that is not written, and
-- the first one again, with the space and without.
abbrev spaced : ProposalAck
spaced = ack_of posted (codes "AP-1 ")

abbrev calls : List (Service × ProposalAck)
calls =
    (served, spaced)
    ∷ (served, second_doc)
    ∷ (write_fails disk_error, ack_of posted (codes "AP-3"))
    ∷ (served, spaced)
    ∷ (served, first_doc)
    ∷ []

-- The number with the space is a conflict with itself, since it is stored without.
posted-Closed_example :
    (r : Proposal) × (ack_all spaces_dropped no_hash (codes "P1") calls one_proposal (codes "P1")
      ≡ some r)
    × Closed
        (canonical_ack spaces_dropped spaced)
        (canonical_acks spaces_dropped (second_doc ∷ spaced ∷ []))
        r
posted-Closed_example =
    posted-Closed spaces_dropped no_hash (codes "P1") spaced (second_doc ∷ spaced ∷ first_doc ∷ [])
      fresh one_proposal calls canonical is_id refl refl refl refl refl
      (refl, (refl, (refl, (refl, tt))))

sorted_warnings :
    normalize_warnings (codes " b" ∷ codes "a" ∷ [] ∷ codes "b " ∷ []) ≡ codes "a" ∷ codes "b" ∷ []
unfolding normalize_warnings collect trim_space trim_left reversed sort_strings insert_sorted
sorted_warnings = refl
