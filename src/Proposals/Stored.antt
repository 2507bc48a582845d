-- ===== src/Proposals/Stored.antt =====
-- internal/store: a closed proposal, written and read.
use integrations_challenge.Prelude.{◌≡◌, refl, ap, ◌∙◌, List, [], ◌∷◌, ◌++◌, Bytes}
use integrations_challenge.Proposals.{Proposal, ProposalAck}
use integrations_challenge.Proposals.Ack.{
  canonical_ack, canonical_acks, canonical_last, canonical_proposal, IsCanonical,
}
use integrations_challenge.Proposals.Closing.{verdict, Closed}

module _ (text : Bytes → Bytes) (canonical : IsCanonical text) where
  pub canonical_ack-twice :
      (a : ProposalAck) → canonical_ack text (canonical_ack text a) ≡ canonical_ack text a
  canonical_ack-twice a =
      rw
        (
          canonical.twice a.status,
          canonical.twice a.external_document_number,
          canonical.twice a.external_posting_date,
          canonical.twice a.idempotency_key,
          canonical.twice a.run_id,
          canonical.twice a.posted_at,
          canonical.twice a.error,
          canonical.twice a.reason,
        )
        refl

  pub canonical_acks-twice :
      (acks : List ProposalAck)
      → canonical_acks text (canonical_acks text acks) ≡ canonical_acks text acks
  canonical_acks-twice [] = refl
  canonical_acks-twice (a ∷ acks) =
      ap (λ (b : ProposalAck). b ∷ canonical_acks text (canonical_acks text acks))
        (canonical_ack-twice a)
      ∙ ap (λ (bs : List ProposalAck). canonical_ack text a ∷ bs) (canonical_acks-twice acks)

  pub canonical_acks-append :
      (xs ys : List ProposalAck)
      → canonical_acks text (xs ++ ys) ≡ canonical_acks text xs ++ canonical_acks text ys
  canonical_acks-append [] ys = refl
  canonical_acks-append (x ∷ xs) ys =
      ap (λ (zs : List ProposalAck). canonical_ack text x ∷ zs) (canonical_acks-append xs ys)

  pub text-verdict : (cs : List ProposalAck) → text (verdict cs) ≡ verdict cs
  text-verdict [] = canonical.keeps_acknowledged
  text-verdict (c ∷ cs) = canonical.keeps_investigation

  pub verdict-canonical_acks :
      (cs : List ProposalAck) → verdict cs ≡ verdict (canonical_acks text cs)
  verdict-canonical_acks [] = refl
  verdict-canonical_acks (c ∷ cs) = refl

  -- A closed proposal that is written and read.
  pub canonical-Closed :
      (a : ProposalAck) (cs : List ProposalAck) (p : Proposal)
      → Closed a cs p
      → Closed (canonical_ack text a) (canonical_acks text cs) (canonical_proposal text p)
  unfolding canonical_proposal
  canonical-Closed a cs p (ack, conflicts, status) = (
    ap (canonical_last text) ack,
    ap (canonical_acks text) conflicts,
    ap text status ∙ text-verdict cs ∙ verdict-canonical_acks cs,
  )
