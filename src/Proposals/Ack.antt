-- ===== src/Proposals/Ack.antt =====
-- internal/store/proposals.go: AckProposal, with the store between its calls. `text` stands for the
-- canonical form of a text in internal/model/canonical.go (canonString, with the UTF-8 repaired).
use integrations_challenge.Prelude.{
  ◌≡◌, not, ◌||◌, Bool, false, Result, update, List, [], ◌∷◌, Bytes, bytes_eq, Option, none, some,
  ok, err, if◌then◌else◌,
}
use integrations_challenge.Text.{trim_space}
use integrations_challenge.Money.{Money}
use integrations_challenge.Store.{Error, unknown_ack, not_found, empty_key}
use integrations_challenge.Store.Apply.{is_empty}
use integrations_challenge.Proposals.{
  Proposal, ProposalAck, ProposalContent, acknowledged, needs_investigation, posted, failed,
  rejected, skipped, AckEffect, take_ack, normalized,
}

-- What is read of an ack and of a proposal that were written: CanonicalJSON writes every text in
-- its canonical form, `text`, and numbers, amounts and rates exactly.
abbrev pub canonical_ack : (Bytes → Bytes) → ProposalAck → ProposalAck
canonical_ack text a = record a {
  status = text a.status;
  external_document_number = text a.external_document_number;
  external_posting_date = text a.external_posting_date;
  idempotency_key = text a.idempotency_key;
  run_id = text a.run_id;
  posted_at = text a.posted_at;
  error = text a.error;
  reason = text a.reason;
}

abbrev pub canonical_acks : (Bytes → Bytes) → List ProposalAck → List ProposalAck
canonical_acks text [] = []
canonical_acks text (a ∷ acks) = canonical_ack text a ∷ canonical_acks text acks

abbrev pub canonical_last : (Bytes → Bytes) → Option ProposalAck → Option ProposalAck
canonical_last text none = none
canonical_last text (some a) = some (canonical_ack text a)

abbrev pub canonical_texts : (Bytes → Bytes) → List Bytes → List Bytes
canonical_texts text [] = []
canonical_texts text (w ∷ ws) = text w ∷ canonical_texts text ws

abbrev pub canonical_money : (Bytes → Bytes) → Money → Money
canonical_money text m = record m { currency = text m.currency }

unfoldable pub canonical_proposal : (Bytes → Bytes) → Proposal → Proposal
canonical_proposal text p = record p {
  proposal_id = text p.proposal_id;
  invoice_key = text p.invoice_key;
  proposal_content_hash = text p.proposal_content_hash;
  created_in_run = text p.created_in_run;
  status = text p.status;
  matched_po = text p.matched_po;
  matched_cost_center = text p.matched_cost_center;
  amount = canonical_money text p.amount;
  source_amount = canonical_money text p.source_amount;
  superseded_by = text p.superseded_by;
  warnings = canonical_texts text p.warnings;
  ack = canonical_last text p.ack;
  ack_conflicts = canonical_acks text p.ack_conflicts;
}

-- What the store does with a call: reading or writing the proposal fails, or both succeed.
pub data Service : Type 0 where
  served : Service
  read_fails write_fails : Error → Service

-- The proposals that the store holds, by their key.
abbrev pub Proposals : Type 0
Proposals = Bytes → Option Proposal

-- The status check of AckProposal.
abbrev pub is_ack_status : Bytes → Bool
is_ack_status s =
    bytes_eq s posted || bytes_eq s rejected || bytes_eq s failed || bytes_eq s skipped

module _ (text : Bytes → Bytes) (hash : ProposalContent → Bytes) where
  -- getProposalLocked, with decodePayload, which writes the payload as CanonicalJSON and reads it.
  abbrev pub get_proposal : Service → Bytes → Proposals → Result Error (Option Proposal)
  get_proposal (read_fails e) id state = elim (state (trim_space id)) [
    | none ↦ ok none
    | some p ↦ err e
  ]
  get_proposal (write_fails e) id state = elim (state (trim_space id)) [
    | none ↦ ok none
    | some p ↦ ok (some (canonical_proposal text p))
  ]
  get_proposal served id state = elim (state (trim_space id)) [
    | none ↦ ok none
    | some p ↦ ok (some (canonical_proposal text p))
  ]

  -- applyLocked of a normalized proposal.
  abbrev pub put_proposal :
      Service → Proposal → AckEffect → Proposals → Proposals × Result Error (AckEffect × Proposal)
  put_proposal (write_fails e) q effect state = (state, err e)
  put_proposal (read_fails e) q effect state = (state, err e)
  put_proposal served q effect state =
      if is_empty (trim_space q.proposal_id) then (state, err empty_key) else (
        update state (trim_space q.proposal_id) (some (canonical_proposal text q)),
        ok (effect, q),
      )

  -- AckProposal
  unfoldable pub ack_proposal :
      Bytes → Service → ProposalAck → Proposals → Proposals × Result Error (AckEffect × Proposal)
  ack_proposal id service ack state =
      if not (is_ack_status ack.status)
      then (state, err unknown_ack)
      else elim (get_proposal service id state) [
        | err e ↦ (state, err e)
        | ok none ↦ (state, err not_found)
        | ok (some p) ↦ elim (take_ack ack p) [
          | err e ↦ (state, err e)
          | ok (q, effect) ↦ put_proposal service (normalized hash q) effect state
        ]
      ]

  -- Calls of AckProposal for one proposal.
  unfoldable pub ack_all : Bytes → List (Service × ProposalAck) → Proposals → Proposals
  ack_all id [] state = state
  ack_all id ((service, ack) ∷ calls) state = ack_all id calls (ack_proposal id service ack state).0

-- The acks of the calls that the store served.
abbrev pub delivered : List (Service × ProposalAck) → List ProposalAck
delivered [] = []
delivered ((served, ack) ∷ calls) = ack ∷ delivered calls
delivered ((read_fails e, ack) ∷ calls) = delivered calls
delivered ((write_fails e, ack) ∷ calls) = delivered calls

abbrev pub first_of : ProposalAck → List ProposalAck → ProposalAck
first_of a [] = a
first_of a (b ∷ bs) = b

abbrev pub rest_of : List ProposalAck → List ProposalAck
rest_of [] = []
rest_of (b ∷ bs) = bs

pub empty_not_cons :
    {b : ProposalAck} {bs : List ProposalAck} → ◌≡◌ {A = List ProposalAck} [] (b ∷ bs) → ⊥
empty_not_cons e = cc

-- A canonical form that changes nothing the second time and leaves these statuses as they are.
pub record IsCanonical (text : Bytes → Bytes) : Type 0 where
  pub twice : (s : Bytes) → text (text s) ≡ text s
  pub keeps_posted : text posted ≡ posted
  pub keeps_acknowledged : text acknowledged ≡ acknowledged
  pub keeps_investigation : text needs_investigation ≡ needs_investigation

-- An id that is stored as it is given.
pub record IsId (text : Bytes → Bytes) (id : Bytes) : Type 0 where
  pub trimmed : trim_space id ≡ id
  pub canonical : text id ≡ id
  pub filled : is_empty id ≡ false
