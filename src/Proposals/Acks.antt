-- ===== src/Proposals/Acks.antt =====
-- internal/store/proposals.go: what a series of acks leaves of a proposal.
use mathlib.Core.Path.{subst, subst₂}
use integrations_challenge.Prelude.{
  ◌≡◌, not, false, Result, refl, sym, inl, inr, ap, ◌∙◌, true, if_elim, Option-cases, Result-cases,
  bytes_eq_refl, List, [], ◌∷◌, ◌++◌, append_assoc, append-nil, Bytes, Option, none, some, All,
  arith,
}
use integrations_challenge.Text.{trim_space}
use integrations_challenge.Store.{Error}
use integrations_challenge.Proposals.{
  Proposal, ProposalAck, ProposalContent, acknowledged, posted, AckEffect, is_posted, post,
  take_ack, normalized,
}
use integrations_challenge.Proposals.Ack.{
  canonical_ack, canonical_acks, canonical_last, canonical_proposal, Service, served, Proposals,
  is_ack_status, put_proposal, ack_proposal, ack_all, delivered, first_of, rest_of, empty_not_cons,
  IsCanonical, IsId, read_fails, write_fails,
}
use integrations_challenge.Proposals.Closing.{
  others, Closed, take_posted, post_first, normalized-Closed, post-Closed, others-append,
}
use integrations_challenge.Proposals.Stored.{
  canonical_ack-twice, canonical_acks-twice, canonical_acks-append, canonical-Closed,
}

module _ (text : Bytes → Bytes) (canonical : IsCanonical text) where
  -- A proposal that is closed, as it is stored.
  StoredClosed : Bytes → ProposalAck → List ProposalAck → Proposal → Type 0
  StoredClosed id a cs p =
      (p.proposal_id ≡ id) × Closed (canonical_ack text a) (canonical_acks text cs) p

  module _ (hash : ProposalContent → Bytes) (id : Bytes) (is_id : IsId text id) where
    -- What AckProposal stores for a posted ack.
    after : ProposalAck → Proposal → Proposal
    after b p = canonical_proposal text (normalized hash (post b (canonical_proposal text p)).0)

    keeps_id : (b : ProposalAck) (p : Proposal) → (post b p).0.proposal_id ≡ p.proposal_id
    unfolding post
    keeps_id b p = ground arith

    -- The proposal that is written has the id that it is read under.
    normalized-named :
        (b : ProposalAck) (p : Proposal)
        → p.proposal_id ≡ id
        → (normalized hash (post b (canonical_proposal text p)).0).proposal_id ≡ id
    unfolding normalized canonical_proposal
    normalized-named b p named =
        ap trim_space (keeps_id b (canonical_proposal text p) ∙ ap text named ∙ is_id.canonical)
        ∙ is_id.trimmed

    after-named :
        (b : ProposalAck) (p : Proposal) → p.proposal_id ≡ id → (after b p).proposal_id ≡ id
    unfolding after canonical_proposal
    after-named b p named = ap text (normalized-named b p named) ∙ is_id.canonical

    put_proposal-served :
        (q : Proposal) (effect : AckEffect) (state : Proposals)
        → q.proposal_id ≡ id
        → (put_proposal text hash served q effect state).0 id ≡ some (canonical_proposal text q)
    put_proposal-served q effect state named =
        let key : trim_space q.proposal_id ≡ id = ap trim_space named ∙ is_id.trimmed in
        rw (key, is_id.filled, bytes_eq_refl id) refl

    ack_proposal-posted :
        (b : ProposalAck) (p : Proposal) (state : Proposals)
        → b.status ≡ posted
        → state id ≡ some p
        → p.proposal_id ≡ id
        → (ack_proposal text hash id served b state).0 id ≡ some (after b p)
    unfolding ack_proposal after
    ack_proposal-posted b p state is held named =
        let known : is_ack_status b.status ≡ true = ap is_ack_status is in
        rw (ack_proposal, known, is_id.trimmed, held, take_posted b (canonical_proposal text p) is)
          (put_proposal-served _ _ state (normalized-named b p named))

    after-Closed :
        (a b : ProposalAck) (cs : List ProposalAck) (p : Proposal)
        → a.status ≡ posted
        → StoredClosed id a cs p
        → StoredClosed id a (cs ++ others (text a.external_document_number) (b ∷ [])) (after b p)
    unfolding after StoredClosed
    after-Closed a b cs p is (named, closed) =
        let kept : text a.status ≡ posted = ap text is ∙ canonical.keeps_posted in
        let doc = text a.external_document_number in
        let read : Closed (canonical_ack text a) (canonical_acks text cs)
            (canonical_proposal text p) =
          subst₂
            (λ (x : ProposalAck) (xs : List ProposalAck). Closed x xs (canonical_proposal text p))
            (canonical_ack-twice text canonical a) (canonical_acks-twice text canonical cs)
            (canonical-Closed text canonical (canonical_ack text a) (canonical_acks text cs) p
              closed) in
        let ds = canonical_acks text cs ++ others doc (b ∷ []) in
        let next = (post b (canonical_proposal text p)).0 in
        let posted_next : Closed (canonical_ack text a) ds (normalized hash next) =
          normalized-Closed hash (canonical_ack text a) ds next (
            post-Closed hash (canonical_ack text a) b (canonical_acks text cs)
              (canonical_proposal text p) kept read) in
        (
          after-named b p named,
          subst₂
              (λ (x : ProposalAck) (xs : List ProposalAck).
                Closed x xs (canonical_proposal text (normalized hash next)))
              (canonical_ack-twice text canonical a)
              (canonical_acks-append text canonical (canonical_acks text cs) (others doc (b ∷ []))
                ∙ ap (λ (xs : List ProposalAck). xs ++ canonical_acks text (others doc (b ∷ [])))
                    (canonical_acks-twice text canonical cs)
                ∙ sym (canonical_acks-append text canonical cs (others doc (b ∷ []))))
              (canonical-Closed text canonical (canonical_ack text a) ds (normalized hash next)
                posted_next),
        )

    -- A call that the store does not serve leaves what it holds.
    unserved_read :
        (e : Error) (b : ProposalAck) (state : Proposals)
        → (ack_proposal text hash id (read_fails e) b state).0 ≡ state
    unfolding ack_proposal
    unserved_read e b state =
        if_elim (λ (r : Proposals × Result Error (AckEffect × Proposal)). r.0 ≡ state)
          (not (is_ack_status b.status)) (λ unknown. refl)
          (λ known. elim (Option-cases (state (trim_space id))) [
            | inl none_held ↦ rw none_held refl
            | inr (p, held) ↦ rw held refl
          ])

    unserved_write :
        (e : Error) (b : ProposalAck) (state : Proposals)
        → (ack_proposal text hash id (write_fails e) b state).0 ≡ state
    unfolding ack_proposal
    unserved_write e b state =
        if_elim (λ (r : Proposals × Result Error (AckEffect × Proposal)). r.0 ≡ state)
          (not (is_ack_status b.status)) (λ unknown. refl)
          (λ known. elim (Option-cases (state (trim_space id))) [
            | inl none_held ↦ rw none_held refl
            | inr (p, held) ↦
                rw held (elim (Result-cases (take_ack b (canonical_proposal text p))) [
                  | inl (e', is) ↦ rw is refl
                  | inr (q, is) ↦ rw is refl
                ])
          ])

    -- A proposal that the store holds under the id, closed so.
    Held : ProposalAck → List ProposalAck → Proposals → Type 0
    Held a cs state = (p : Proposal) × (state id ≡ some p) × StoredClosed id a cs p

    served_next :
        (a b : ProposalAck) (cs : List ProposalAck) (state : Proposals)
        → a.status ≡ posted
        → b.status ≡ posted
        → Held a cs state
        → Held a
            (cs ++ others (text a.external_document_number) (b ∷ []))
            (ack_proposal text hash id served b state).0
    unfolding Held StoredClosed
    served_next a b cs state is here (p, held, (named, closed)) = (
      after b p,
      ack_proposal-posted b p state here held named,
      after-Closed a b cs p is (named, closed),
    )

    calls-Held :
        (a : ProposalAck) (cs : List ProposalAck) (calls : List (Service × ProposalAck))
        (state : Proposals)
        → a.status ≡ posted
        → All (λ (b : ProposalAck). b.status ≡ posted) (delivered calls)
        → Held a cs state
        → Held a
            (cs ++ others (text a.external_document_number) (delivered calls))
            (ack_all text hash id calls state)
    unfolding ack_all
    calls-Held a cs [] state is each h =
        subst (λ (xs : List ProposalAck). Held a xs state) (sym (append-nil cs)) h
    calls-Held a cs ((read_fails e, b) ∷ calls) state is each h =
        calls-Held a cs calls _ is each (subst (Held a cs) (sym (unserved_read e b state)) h)
    calls-Held a cs ((write_fails e, b) ∷ calls) state is each h =
        calls-Held a cs calls _ is each (subst (Held a cs) (sym (unserved_write e b state)) h)
    calls-Held a cs ((served, b) ∷ calls) state is (here, each) h =
        let next = served_next a b cs state is here h in
        let doc = text a.external_document_number in
        subst
          (λ (xs : List ProposalAck).
            Held a xs (ack_all text hash id calls (ack_proposal text hash id served b state).0))
          (append_assoc cs (others doc (b ∷ [])) (others doc (delivered calls))
            ∙ ap (λ (xs : List ProposalAck). cs ++ xs) (others-append hash doc b (delivered calls)))
          (calls-Held a (cs ++ others doc (b ∷ [])) calls _ is each next)

    first-Closed :
        (a : ProposalAck) (p : Proposal)
        → p.proposal_id ≡ id
        → p.ack ≡ none
        → p.ack_conflicts ≡ []
        → StoredClosed id a [] (after a p)
    unfolding after StoredClosed canonical_proposal
    first-Closed a p named fresh clear =
        let read = canonical_proposal text p in
        let unposted : is_posted read.ack ≡ false =
          ap (λ (o : Option ProposalAck). is_posted (canonical_last text o)) fresh in
        let written : Closed a [] (normalized hash (post a read).0) =
          subst (λ (r : Proposal × AckEffect). Closed a [] (normalized hash r.0))
            (sym (post_first a read unposted))
            (normalized-Closed hash a [] (record read { status = acknowledged; ack = some a })
              (refl, ap (canonical_acks text) clear, refl)) in
        (
          after-named a p named,
          canonical-Closed text canonical a [] (normalized hash (post a read).0) written,
        )

    first-Held :
        (b : ProposalAck) (p : Proposal) (state : Proposals)
        → b.status ≡ posted
        → state id ≡ some p
        → p.proposal_id ≡ id
        → p.ack ≡ none
        → p.ack_conflicts ≡ []
        → Held b [] (ack_proposal text hash id served b state).0
    unfolding Held
    first-Held b p state here held named fresh clear = (
      after b p,
      ack_proposal-posted b p state here held named,
      first-Closed b p named fresh clear,
    )

    fresh-Held :
        (a : ProposalAck) (bs : List ProposalAck) (p : Proposal)
        (calls : List (Service × ProposalAck)) (state : Proposals)
        → state id ≡ some p
        → p.proposal_id ≡ id
        → p.ack ≡ none
        → p.ack_conflicts ≡ []
        → delivered calls ≡ a ∷ bs
        → All (λ (b : ProposalAck). b.status ≡ posted) (delivered calls)
        → Held a (others (text a.external_document_number) bs) (ack_all text hash id calls state)
    unfolding ack_all
    fresh-Held a bs p [] state held named fresh clear e each = absurd (empty_not_cons e)
    fresh-Held a bs p ((read_fails f, b) ∷ calls) state held named fresh clear e each =
        let same = unserved_read f b state in
        fresh-Held a bs p calls _ (ap (λ (st : Proposals). st id) same ∙ held) named fresh clear e
          each
    fresh-Held a bs p ((write_fails f, b) ∷ calls) state held named fresh clear e each =
        let same = unserved_write f b state in
        fresh-Held a bs p calls _ (ap (λ (st : Proposals). st id) same ∙ held) named fresh clear e
          each
    fresh-Held a bs p ((served, b) ∷ calls) state held named fresh clear e (here, each) =
        let last = ack_all text hash id calls (ack_proposal text hash id served b state).0 in
        subst₂
          (λ (x : ProposalAck) (xs : List ProposalAck).
            Held x (others (text x.external_document_number) xs) last)
          (ap (first_of b) e) (ap rest_of e)
          (calls-Held b [] calls _ here each (first-Held b p state here held named fresh clear))

-- AckProposal is called for a stored proposal that no ack reached, any number of times. Calls whose
-- read or write fails leave the proposal as it is; the acks of the others are all posted. Then the
-- stored ack is the canonical form of the first one; the stored conflicts are those of every later
-- ack whose number, as it was delivered, is not the canonical number of the first, in order and no
-- other; and the status is needs_investigation exactly when there is such a conflict, else
-- acknowledged. The id is taken to be in the form in which it is stored, and a canonical form to
-- be its own and to leave these statuses as they are.
pub posted-Closed :
    (text : Bytes → Bytes) (hash : ProposalContent → Bytes) (id : Bytes) (a : ProposalAck)
    (bs : List ProposalAck) (p : Proposal) (state : Proposals)
    (calls : List (Service × ProposalAck))
    → IsCanonical text
    → IsId text id
    → state id ≡ some p
    → p.proposal_id ≡ id
    → p.ack ≡ none
    → p.ack_conflicts ≡ []
    → delivered calls ≡ a ∷ bs
    → All (λ (b : ProposalAck). b.status ≡ posted) (delivered calls)
    → (r : Proposal) × (ack_all text hash id calls state id ≡ some r)
      × Closed
          (canonical_ack text a)
          (canonical_acks text (others (text a.external_document_number) bs))
          r
unfolding Held StoredClosed
posted-Closed text hash id a bs p state calls canonical is_id held named fresh clear e each =
    let (r, kept, (same, closed)) =
      fresh-Held text canonical hash id is_id a bs p calls state held named fresh clear e each in
    (r, kept, closed)
