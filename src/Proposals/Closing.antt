-- ===== src/Proposals/Closing.antt =====
-- internal/store/proposals.go: what the ack table does to a proposal that is closed.
use integrations_challenge.Prelude.{
  ◌≡◌, false, refl, inl, inr, ap, ◌∙◌, true, List, [], ◌∷◌, ◌++◌, append-nil, Bytes, bytes_eq,
  Option, some, ok, if◌then◌else◌, Bool-cases, arith,
}
use integrations_challenge.Store.Apply.{is_empty}
use integrations_challenge.Proposals.{
  Proposal, ProposalAck, ProposalContent, effect_acknowledged, effect_replay, effect_conflict,
  acknowledged, needs_investigation, pending, posted, is_posted, names_document, post, take_ack,
  normalized,
}

-- The acks of which the number is not this one, byte for byte.
abbrev pub others : Bytes → List ProposalAck → List ProposalAck
others doc [] = []
others doc (b ∷ bs) =
    if bytes_eq doc b.external_document_number then others doc bs else b ∷ others doc bs

abbrev pub verdict : List ProposalAck → Bytes
verdict [] = acknowledged
verdict (b ∷ bs) = needs_investigation

-- A proposal closed by the posted ack a, with these conflicts.
abbrev pub Closed : ProposalAck → List ProposalAck → Proposal → Type 0
Closed a conflicts p =
    (p.ack ≡ some a) × (p.ack_conflicts ≡ conflicts) × (p.status ≡ verdict conflicts)

pub take_posted :
    (ack : ProposalAck) (p : Proposal) → ack.status ≡ posted → take_ack ack p ≡ ok (post ack p)
unfolding take_ack
take_posted ack p e =
    let is : bytes_eq ack.status posted ≡ true = ap (λ (s : Bytes). bytes_eq s posted) e in
    rw is refl

pub verdict-snoc :
    (bs : List ProposalAck) (b : ProposalAck) → verdict (bs ++ b ∷ []) ≡ needs_investigation
verdict-snoc [] b = refl
verdict-snoc (c ∷ bs) b = refl

pub post_first :
    (a : ProposalAck) (p : Proposal)
    → is_posted p.ack ≡ false
    → post a p ≡ (record p { status = acknowledged; ack = some a }, effect_acknowledged)
unfolding post
post_first a p unposted = rw unposted refl

module _ (hash : ProposalContent → Bytes) where
  pub normalized-Closed :
      (a : ProposalAck) (cs : List ProposalAck) (p : Proposal)
      → Closed a cs p
      → Closed a cs (normalized hash p)
  unfolding normalized
  normalized-Closed a [] p (ack, conflicts, status) =
      (ack, conflicts, ap (λ (s : Bytes). if is_empty s then pending else s) status)
  normalized-Closed a (c ∷ cs) p (ack, conflicts, status) =
      (ack, conflicts, ap (λ (s : Bytes). if is_empty s then pending else s) status)

  module _ (b : ProposalAck) (p : Proposal) (known : is_posted p.ack ≡ true) where
    post_replay :
        names_document p.ack b.external_document_number ≡ true → post b p ≡ (p, effect_replay)
    unfolding post
    post_replay same = rw (known, same) refl

    post_conflict :
        names_document p.ack b.external_document_number ≡ false
        → post b p ≡ (
          record p { status = needs_investigation; ack_conflicts = p.ack_conflicts ++ b ∷ [] },
          effect_conflict,
        )
    unfolding post
    post_conflict other = rw (known, other) refl

  pub post-Closed :
      (a b : ProposalAck) (cs : List ProposalAck) (p : Proposal)
      → a.status ≡ posted
      → Closed a cs p
      → Closed a (cs ++ others a.external_document_number (b ∷ [])) (post b p).0
  post-Closed a b cs p is (ack, conflicts, status) =
      let doc = b.external_document_number in
      let known : is_posted p.ack ≡ true =
        ap is_posted ack ∙ ap (λ (s : Bytes). bytes_eq s posted) is in
      let names : names_document p.ack doc ≡ bytes_eq a.external_document_number doc =
        ap (λ (o : Option ProposalAck). names_document o doc) ack in
      elim (Bool-cases (bytes_eq a.external_document_number doc)) [
        | inl same ↦
            rw (same, post_replay b p known (names ∙ same), append-nil cs) (ack, conflicts, status)
        | inr other ↦
            rw (other, post_conflict b p known (names ∙ other), verdict-snoc cs b)
              (ack, ap (λ (xs : List ProposalAck). xs ++ b ∷ []) conflicts, refl)
      ]

  pub others-append :
      (doc : Bytes) (b : ProposalAck) (bs : List ProposalAck)
      → others doc (b ∷ []) ++ others doc bs ≡ others doc (b ∷ bs)
  others-append doc b bs = ground arith
