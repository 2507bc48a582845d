-- ===== src/Proposals.antt =====
-- internal/store/proposals.go: posting proposals and the acknowledgment of their postings.
-- `hash` is model.ContentHash of a proposal's content.
pub mod Ack
pub mod Closing
pub mod Stored
pub mod Acks
mod Tests
use integrations_challenge.Prelude.{
  ℕ, ◌+◌, Bool, true, false, not, ◌&&◌, ◌||◌, List, [], ◌∷◌, ◌++◌, Bytes, codes, bytes_eq, Option,
  none, some, Result, ok, err, if◌then◌else◌,
}
use integrations_challenge.Prelude.Int.{ℤ}
use integrations_challenge.Text.{trim_space, sort_strings}
use integrations_challenge.Decimal.{Decimal}
use integrations_challenge.Money.{Money}
use integrations_challenge.Store.{Error, unknown_ack}
use integrations_challenge.Store.Apply.{is_empty}

pub record ProposalAck : Type 0 where
  pub status : Bytes
  pub external_document_number : Bytes
  pub external_revision : ℤ
  pub external_fiscal_year : ℤ
  pub external_posting_date : Bytes
  pub idempotency_key : Bytes
  pub run_id : Bytes
  pub posted_at : Bytes
  pub attempts : ℤ
  pub http_status : ℤ
  pub idempotency_replay : Bool
  pub error : Bytes
  pub reason : Bytes

pub record ProposalContent : Type 0 where
  pub proposal_id : Bytes
  pub invoice_key : Bytes
  pub invoice_version : ℤ
  pub matched_po : Bytes
  pub matched_cost_center : Bytes
  pub fx_rate_used : Decimal
  pub fx_rate_factor : ℤ
  pub amount : Money
  pub source_amount : Money

pub record Proposal : Type 0 where
  pub proposal_id : Bytes
  pub invoice_key : Bytes
  pub invoice_version : ℤ
  pub proposal_content_hash : Bytes
  pub created_in_run : Bytes
  pub created_seq : ℤ
  pub status : Bytes
  pub matched_po : Bytes
  pub matched_cost_center : Bytes
  pub fx_rate_used : Decimal
  pub fx_rate_factor : ℤ
  pub amount : Money
  pub source_amount : Money
  pub superseded_by : Bytes
  pub attempts : ℕ
  pub warnings : List Bytes
  pub ack : Option ProposalAck
  pub ack_conflicts : List ProposalAck

-- The statuses of a proposal, and those of an ack.
abbrev pub pending : Bytes
pending = codes "pending"

abbrev pub acknowledged : Bytes
acknowledged = codes "acknowledged"

abbrev pub rejected : Bytes
rejected = codes "rejected"

abbrev pub superseded : Bytes
superseded = codes "superseded"

abbrev pub needs_investigation : Bytes
needs_investigation = codes "needs_investigation"

abbrev pub posted : Bytes
posted = codes "posted"

abbrev pub failed : Bytes
failed = codes "failed"

abbrev pub skipped : Bytes
skipped = codes "skipped"

pub data AckEffect : Type 0 where
  effect_acknowledged effect_replay effect_conflict effect_rejected effect_retry effect_skipped :
      AckEffect

-- Proposal.Content
abbrev pub content : Proposal → ProposalContent
content p = record {
  proposal_id = p.proposal_id;
  invoice_key = p.invoice_key;
  invoice_version = p.invoice_version;
  matched_po = p.matched_po;
  matched_cost_center = p.matched_cost_center;
  fx_rate_used = p.fx_rate_used;
  fx_rate_factor = p.fx_rate_factor;
  amount = p.amount;
  source_amount = p.source_amount;
}

abbrev pub has_text : Bytes → List Bytes → Bool
has_text w [] = false
has_text w (v ∷ vs) = bytes_eq w v || has_text w vs

-- The loop of normalizeWarnings: `out` is what was kept, and so also the keys of `seen`.
unfoldable pub collect : List Bytes → List Bytes → List Bytes
collect [] out = out
collect (w ∷ ws) out =
    let t = trim_space w in collect ws (if is_empty t || has_text t out then out else out ++ t ∷ [])

-- normalizeWarnings
unfoldable pub normalize_warnings : List Bytes → List Bytes
normalize_warnings ws = sort_strings (collect ws [])

-- `p.Ack != nil && p.Ack.Status == AckPosted`
abbrev pub is_posted : Option ProposalAck → Bool
is_posted none = false
is_posted (some a) = bytes_eq a.status posted

abbrev pub names_document : Option ProposalAck → Bytes → Bool
names_document none doc = false
names_document (some a) doc = bytes_eq a.external_document_number doc

module _ (hash : ProposalContent → Bytes) where
  -- Proposal.normalized
  unfoldable pub normalized : Proposal → Proposal
  normalized p =
      let p₁ = record p {
        status = if is_empty p.status then pending else p.status;
        proposal_id = trim_space p.proposal_id;
        warnings = normalize_warnings p.warnings;
      } in
      record p₁ { proposal_content_hash = hash (content p₁) }

-- The row of the ack table for a posted ack.
unfoldable pub post : ProposalAck → Proposal → Proposal × AckEffect
post ack p =
    if is_posted p.ack && names_document p.ack ack.external_document_number
    then (p, effect_replay)
    else if is_posted p.ack
    then (
      record p { status = needs_investigation; ack_conflicts = p.ack_conflicts ++ ack ∷ [] },
      effect_conflict,
    )
    else (record p { status = acknowledged; ack = some ack }, effect_acknowledged)

-- The switches of AckProposal, before the proposal is normalized and written.
unfoldable pub take_ack : ProposalAck → Proposal → Result Error (Proposal × AckEffect)
take_ack ack p =
    if bytes_eq ack.status posted
    then ok (post ack p)
    else if bytes_eq ack.status rejected
    then ok (record p { status = rejected; ack = some ack }, effect_rejected)
    else if bytes_eq ack.status failed
    then ok (record p { status = pending; attempts = p.attempts + 1; ack = some ack }, effect_retry)
    else if bytes_eq ack.status skipped
    then ok (record p { status = pending; ack = some ack }, effect_skipped)
    else err unknown_ack
